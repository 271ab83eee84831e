-- ===== src/Engine/WellFormed.antt =====
-- Every signal stays in one of its declared states.
use sig_topo.Base.{
  String, ◌≡◌, sym, ap, ◌∙◌, true, Option, some, List, [], ◌∷◌, HashMap, lookup, modify,
  lookup-modify, All, All-find, contains, find-some, ◌==◌, eq_iff, arith, Bool-cases, Option-cases,
  subst, ◌⊎◌, inl, inr,
}
use sig_topo.Json.{Platform, Json}
use sig_topo.Schema.{TransitionDef}
use sig_topo.Trace.{TraceEvent}
use sig_topo.Engine.State.{SignalState, Engine}
use sig_topo.Engine.Send.{find_transition, transition_matches, send_event}
use sig_topo.Engine.Commits.{Commits, moved}
use sig_topo.Engine.Cascades.{send_event-Refines}

-- A property of every signal's id, current state and declared states.
abbrev pub Everywhere : (String → String → List String → Type 0) → HashMap SignalState → Type 0
Everywhere P m = (sid : String) (s : SignalState) → lookup sid m ≡ some s → P sid s.current s.states

-- It survives a write that has it.
pub Everywhere-modify :
    (P : String → String → List String → Type 0) (k to : String) (m : HashMap SignalState)
    → Everywhere P m
    → ((s : SignalState) → lookup k m ≡ some s → P k to s.states)
    → Everywhere P (modify k (moved to) m)
Everywhere-modify P k to m all written sid s h =
    let h' = rw lookup-modify at h in
    elim (Option-cases (lookup sid m)) [
      | inl missing ↦ absurd (ground (arith, missing, h'))
      | inr (o, found) ↦ elim (Bool-cases (k == sid)) [
        | inl same ↦
            let k_sid = (eq_iff k sid).0 same in
            let s_o : moved to o ≡ s = ground (arith, found, h', same) in
            subst (λ (u : SignalState). P sid u.current u.states) s_o
              (subst (λ q. P q to o.states) k_sid (written o (ap (λ q. lookup q m) k_sid ∙ found)))
        | inr other ↦
            let o_s : o ≡ s = ground (arith, found, h', other) in
            subst (λ (u : SignalState). P sid u.current u.states) o_s (all sid o found)
      ]
    ]

abbrev pub InStates : String → String → List String → Type 0
InStates sid current states = contains current states ≡ true

-- The target of a transition is a declared state of its signal.
abbrev pub HasTarget : HashMap SignalState → TransitionDef → Type 0
HasTarget m t = Everywhere (λ sid _ states. t.signal_id ≡ sid → contains t.to states ≡ true) m

pub record IsPlaced (ts : List TransitionDef) (m : HashMap SignalState) : Type 0 where
  pub placed : Everywhere InStates m
  pub targets : All (HasTarget m) ts

abbrev pub IsWellFormed : {p : Platform} → Engine p → Type 0
IsWellFormed e = IsPlaced e.transitions e.signals

-- What the choice of a transition says of it.
pub find_transition-fits :
    (sid event current : String) (ts : List TransitionDef) (t : TransitionDef)
    → find_transition sid event current ts ≡ some t
    → (t.signal_id ≡ sid) × (t.event ≡ event) × ((t.from ≡ current) ⊎ (t.from ≡ "*"))
unfolding find_transition
find_transition-fits sid event current ts t h =
    let fits = find-some (transition_matches sid event current) ts t h in
    (
      ground (arith, fits, eq_iff t.signal_id sid),
      ground (arith, fits, eq_iff t.event event),
      ground (arith, fits, eq_iff t.from current, eq_iff t.from "*"),
    )

pub targets-modify :
    (k to : String) (m : HashMap SignalState) (ts : List TransitionDef)
    → All (HasTarget m) ts
    → All (HasTarget (modify k (moved to) m)) ts
targets-modify k to m [] h = tt
targets-modify k to m (t ∷ ts) h =
    (Everywhere-modify _ k to m h.0 (h.0 k), targets-modify k to m ts h.1)

module _ {p : Platform} {ts : List TransitionDef} where
  pub Commits-IsPlaced :
      {m m' : HashMap SignalState} {evs : List TraceEvent}
      → Commits p ts m evs m'
      → IsPlaced ts m
      → IsPlaced ts m'
  unfolding find_transition
  Commits-IsPlaced Commits.done h = h
  Commits-IsPlaced (Commits.quiet ev q c) h = Commits-IsPlaced c h
  Commits-IsPlaced
        (Commits.commit {m = m} sid event payload s t time found first passed chosen allowed e c)
        h =
      let target =
        All-find (HasTarget m) (transition_matches sid event s.current) ts t h.targets first in
      let fits = find_transition-fits sid event s.current ts t first in
      Commits-IsPlaced c (record {
        placed = Everywhere-modify InStates sid t.to m h.placed (λ o at. target sid o at fits.0);
        targets = targets-modify sid t.to m ts h.targets;
      })

-- If every signal is in one of its declared states, and every transition targets one, then the same
-- holds after a call of `send_event`, whether it returns or fails.
pub send_event-IsWellFormed :
    {p : Platform} (sid event : String) (payload : Option (Json p.Number)) (e : Engine p)
    → IsWellFormed e
    → IsWellFormed (send_event sid event payload e).1
send_event-IsWellFormed sid event payload e h =
    let r = send_event-Refines sid event payload e in
    subst (λ ts. IsPlaced ts (send_event sid event payload e).1.signals) (sym r.fixed.transitions)
      (Commits-IsPlaced r.commits h)
