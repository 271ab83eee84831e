-- ===== src/Engine/Commits.antt =====
-- What a run of the engine promises: the signals move by single commits, each by the first
-- transition that matches, with its guard passed, and each written down in the trace.
use sig_topo.Base.{
  ℕ, String, ◌≡◌, Option, some, List, [], ◌∷◌, ◌++◌, HashMap, lookup, modify, All, ok, ◌⊎◌, inl,
  inr, refl, true, false, none, Bool, find, Bool-cases, eq_iff, arith, Result, err,
}
use sig_topo.Json.{Platform, Json}
use sig_topo.Schema.{TransitionDef}
use sig_topo.Trace.{TraceEvent, state_changed}
use sig_topo.Engine.State.{SignalState}
use sig_topo.Guard.Eval.{eval_guard}
use sig_topo.Engine.Send.{
  transition_matches, find_transition, guard_outcome, check_guard, event_context,
}

abbrev pub moved : String → SignalState → SignalState
moved state s = record s { current = state }

-- An event that tells of no commit.
abbrev pub IsQuiet : TraceEvent → Type 0
IsQuiet (state_changed _ _ _ _) = ⊥
IsQuiet _ = Unit

-- The transition is written for this event of the signal, and for this state or for any.
abbrev pub Answers : String → String → String → TransitionDef → Type 0
Answers sid event current t =
    (t.signal_id ≡ sid) × (t.event ≡ event) × ((t.from ≡ current) ⊎ (t.from ≡ "*"))

-- It is the first of the list that is.
abbrev pub IsFirst : String → String → String → TransitionDef → List TransitionDef → Type 0
IsFirst sid event current t [] = ⊥
IsFirst sid event current t (u ∷ us) =
    (Answers sid event current u × (u ≡ t))
    ⊎ ((¬ Answers sid event current u) × IsFirst sid event current t us)

-- The guard, if there is one, is true.
abbrev pub IsAllowed :
    (p : Platform)
    → String
    → String
    → Option (Json p.Number)
    → String
    → TransitionDef
    → Option String
    → Type 0
IsAllowed p sid event payload current t none = Unit
IsAllowed p sid event payload current t (some guard) =
    eval_guard p guard (record {
      signal_id = sid;
      from_state = current;
      to_state = t.to;
      event = event;
      payload = payload;
      failure = none;
    })
    ≡ ok true

Answers-of_match :
    (sid event current : String) (u : TransitionDef)
    → transition_matches sid event current u ≡ true
    → Answers sid event current u
Answers-of_match sid event current u h = ground (
  arith,
  h,
  eq_iff u.signal_id sid,
  eq_iff u.event event,
  eq_iff u.from current,
  eq_iff u.from "*",
)

not_Answers :
    (sid event current : String) (u : TransitionDef)
    → transition_matches sid event current u ≡ false
    → ¬ Answers sid event current u
not_Answers sid event current u h = λ answers. ground (
  arith,
  h,
  answers,
  eq_iff u.signal_id sid,
  eq_iff u.event event,
  eq_iff u.from current,
  eq_iff u.from "*",
)

find-IsFirst :
    (sid event current : String) (t : TransitionDef) (ts : List TransitionDef)
    → find (transition_matches sid event current) ts ≡ some t
    → IsFirst sid event current t ts
find-IsFirst sid event current t [] h = absurd (cc h)
find-IsFirst sid event current t (u ∷ us) h =
    elim (Bool-cases (transition_matches sid event current u)) [
      | inl here ↦ inl (Answers-of_match sid event current u here, cc (rw here at h))
      | inr later ↦ inr (
        not_Answers sid event current u later,
        find-IsFirst sid event current t us (rw later at h),
      )
    ]

pub find_transition-IsFirst :
    (sid event current : String) (t : TransitionDef) (ts : List TransitionDef)
    → find_transition sid event current ts ≡ some t
    → IsFirst sid event current t ts
unfolding find_transition
find_transition-IsFirst sid event current t ts h = find-IsFirst sid event current t ts h

pub check_guard-IsAllowed :
    (p : Platform) (sid event : String) (payload : Option (Json p.Number)) (current : String)
    (t : TransitionDef) (guard : Option String)
    → check_guard guard (event_context {p = p} sid event payload current t) ≡ ok tt
    → IsAllowed p sid event payload current t guard
unfolding check_guard
check_guard-IsAllowed p sid event payload current t none h = tt
check_guard-IsAllowed p sid event payload current t (some guard) h =
    allowed (eval_guard p guard (event_context {p = p} sid event payload current t)) h
  where
    allowed :
        (r : Result String Bool)
        → guard_outcome guard (event_context {p = p} sid event payload current t) r ≡ ok tt
        → r ≡ ok true
    allowed (ok true) h = refl
    allowed (ok false) h = absurd (cc h)
    allowed (err m) h = absurd (cc h)

module _ (p : Platform) (ts : List TransitionDef) where
  pub data Commits : HashMap SignalState → List TraceEvent → HashMap SignalState → Type 0 where
    done : {m : HashMap SignalState} → Commits m [] m
    quiet :
        {m m' : HashMap SignalState} {evs : List TraceEvent} (ev : TraceEvent)
        → IsQuiet ev
        → Commits m evs m'
        → Commits m (ev ∷ evs) m'
    commit :
        {m m' : HashMap SignalState} {evs : List TraceEvent} {ev : TraceEvent} (sid event : String)
        (payload : Option (Json p.Number)) (s : SignalState) (t : TransitionDef) (time : ℕ)
        → lookup sid m ≡ some s
        → find_transition sid event s.current ts ≡ some t
        → check_guard t.guard (event_context {p = p} sid event payload s.current t) ≡ ok tt
        → IsFirst sid event s.current t ts
        → IsAllowed p sid event payload s.current t t.guard
        → ev ≡ state_changed sid s.current t.to time
        → Commits (modify sid (moved t.to) m) evs m'
        → Commits m (ev ∷ evs) m'

module _ {p : Platform} {ts : List TransitionDef} where
  pub Commits-append :
      {m m' m'' : HashMap SignalState} {evs evs' : List TraceEvent}
      → Commits p ts m evs m'
      → Commits p ts m' evs' m''
      → Commits p ts m (evs ++ evs') m''
  Commits-append done c = c
  Commits-append (quiet ev q d) c = quiet ev q (Commits-append d c)
  Commits-append (commit sid event payload s t time found first passed chosen allowed ev d) c =
      commit sid event payload s t time found first passed chosen allowed ev (Commits-append d c)

  pub Commits-quiet :
      {m : HashMap SignalState} (evs : List TraceEvent) → All IsQuiet evs → Commits p ts m evs m
  Commits-quiet [] q = done
  Commits-quiet (ev ∷ evs) q = quiet ev q.0 (Commits-quiet evs q.1)
