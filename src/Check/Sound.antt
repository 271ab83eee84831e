-- ===== src/Check/Sound.antt =====
-- A state that `check_schema` calls unreachable is never entered.
use sig_topo.Base.{
  ℕ, String, Bool, true, false, not, ◌&&◌, ◌≡◌, refl, sym, ap, subst, ◌∙◌, some, List, [], ◌∷◌, All,
  find, find-some, All-find, contains, filter, HashMap, lookup, modify, ◌==◌, eq_iff, eq_refl,
  arith, Bool-cases, Option-cases, inl, inr, ok, ok_inj, and_then-eq-ok,
}
use sig_topo.Json.{Platform}
use sig_topo.Schema.{SignalDef, TransitionDef, TopologySchema}
use sig_topo.Trace.{TraceEvent}
use sig_topo.Compose.Expand.{expand}
use sig_topo.Engine.State.{SignalState, Engine}
use sig_topo.Engine.Commits.{Commits, moved}
use sig_topo.Engine.Send.{transition_matches, state_matches, find_transition}
use sig_topo.Engine.Validate.{validate, validate_signals}
use sig_topo.Engine.Build.{from_schema, initial_signals}
use sig_topo.Engine.Validated.{finds, found_only}
use sig_topo.Engine.WellFormed.{Everywhere, Everywhere-modify}
use sig_topo.Engine.Built.{from_schema-parts, initial_signals-Everywhere, Everywhere-empty}
use sig_topo.Engine.Runs.{Runs, Runs-invariant}
use sig_topo.Check.{is_self_loop, targets_of, reachable, unreachable_states}

-- The target of a transition is no wildcard.
abbrev pub IsNamed : TransitionDef → Type 0
IsNamed t = (t.to == "*") ≡ false

targets_of-find :
    (id : String) (test : TransitionDef → Bool) (ts : List TransitionDef) (t : TransitionDef)
    → find test ts ≡ some t
    → (t.signal_id == id) ≡ true
    → is_self_loop t ≡ false
    → contains t.to (targets_of id ts) ≡ true
unfolding targets_of
targets_of-find id test [] t found same other = absurd (cc found)
targets_of-find id test (u ∷ ts) t found same other = elim (Bool-cases (test u)) [
  | inl here ↦
      let u_t : u ≡ t = cc (rw here at found) in
      subst (λ (v : TransitionDef). contains v.to (targets_of id (u ∷ ts)) ≡ true) u_t
        (let same' = subst (λ (v : TransitionDef). (v.signal_id == id) ≡ true) (sym u_t) same in
          let other' = subst (λ (v : TransitionDef). is_self_loop v ≡ false) (sym u_t) other in
          rw (same', other', eq_refl) refl)
  | inr not_here ↦
      let rest = targets_of-find id test ts t (rw not_here at found) same other in
      elim (Bool-cases (u.signal_id == id && not (is_self_loop u))) [
        | inl counted ↦ rw (counted, rest) (ground arith)
        | inr skipped ↦ rw skipped rest
      ]
]

-- What a commit enters is reachable, if what it leaves is.
enters_reachable :
    (id event current : String) (ts : List TransitionDef) (t : TransitionDef) (sig : SignalDef)
    → All IsNamed ts
    → (sig.id == id) ≡ true
    → find_transition id event current ts ≡ some t
    → contains current (reachable ts sig) ≡ true
    → contains t.to (reachable ts sig) ≡ true
unfolding find_transition reachable
enters_reachable id event current ts t sig named same found at =
    let matched = find-some (transition_matches id event current) ts t found in
    let of_signal : (t.signal_id == id) ≡ true = ground (arith, matched) in
    let leaves : state_matches t.from current ≡ true = ground (arith, matched) in
    elim (Bool-cases (is_self_loop t)) [
      | inr other ↦
          let same' : (t.signal_id == sig.id) ≡ true = ground (
            arith,
            of_signal,
            same,
            eq_iff t.signal_id id,
            eq_iff sig.id id,
            eq_iff t.signal_id sig.id,
          ) in
          let target =
            targets_of-find sig.id (transition_matches id event current) ts t found same' other in
          ground (arith, target)
      | inl loop ↦
          let from_to = (eq_iff t.from t.to).0 loop in
          elim (Bool-cases (t.from == current)) [
            | inl here ↦
                subst (λ s. contains s (reachable ts sig) ≡ true)
                  (sym ((eq_iff t.from current).0 here) ∙ from_to) at
            | inr elsewhere ↦
                let star : (t.from == "*") ≡ true = ground (arith, leaves, elsewhere) in
                let plain =
                  All-find IsNamed (transition_matches id event current) ts t named found in
                absurd (ground (arith, star, plain, from_to))
          ]
    ]

-- A signal of the topology is where a run can reach it.
abbrev pub IsReachable :
    List TransitionDef → List SignalDef → String → String → List String → Type 0
IsReachable ts sigs id current states =
    (sig : SignalDef) → finds id sigs ≡ some sig → contains current (reachable ts sig) ≡ true

module _ {p : Platform} where
  Commits-IsReachable :
      (ts : List TransitionDef) (sigs : List SignalDef) (m m' : HashMap SignalState)
      (evs : List TraceEvent)
      → All IsNamed ts
      → Commits p ts m evs m'
      → Everywhere (IsReachable ts sigs) m
      → Everywhere (IsReachable ts sigs) m'
  Commits-IsReachable ts sigs m m' evs named Commits.done all = all
  Commits-IsReachable ts sigs m m' evs named (Commits.quiet ev q c) all =
      Commits-IsReachable ts sigs m m' _ named c all
  Commits-IsReachable ts sigs m m' evs named
        (Commits.commit sid event payload s t time found first passed chosen allowed e c) all =
      Commits-IsReachable ts sigs (modify sid (moved t.to) m) m' _ named c (
        Everywhere-modify (IsReachable ts sigs) sid t.to m all λ o at sig declared.
          enters_reachable sid event s.current ts t sig named
            (find-some (λ u. u.id == sid) sigs sig declared) first (all sid s found sig declared))

All-of :
    (R : String → SignalDef → Type 0) (sigs : List SignalDef)
    → ((k : String) → All (λ s. k ≡ s.id → R k s) sigs)
    → All (λ s. R s.id s) sigs
All-of R [] h = tt
All-of R (s ∷ sigs) h = ((h s.id).0 refl, All-of R sigs (λ k. (h k).1))

All-trivial :
    (P : SignalDef → Type 0) (sigs : List SignalDef) → ((s : SignalDef) → P s) → All P sigs
All-trivial P [] h = tt
All-trivial P (s ∷ sigs) h = (h s, All-trivial P sigs h)

-- Every signal starts where it is reachable, since its id is its own.
starts-IsReachable :
    (ts : List TransitionDef) (sigs : List SignalDef)
    → validate_signals [] sigs ≡ ok tt
    → All (λ s. IsReachable ts sigs s.id s.initial_state s.states) sigs
unfolding reachable
starts-IsReachable ts sigs h =
    All-of (λ k s. IsReachable ts sigs k s.initial_state s.states) sigs
      λ k. elim (Option-cases (finds k sigs)) [
        | inl missing ↦ All-trivial _ sigs (λ s e sig declared. absurd (cc (missing, declared)))
        | inr (sig₀, found) ↦
            found_only (λ s. IsReachable ts sigs k s.initial_state s.states) k [] sigs sig₀ h found
              λ sig declared.
                let same : sig₀ ≡ sig = cc (found, declared) in
                subst (λ (u : SignalDef). contains sig₀.initial_state (reachable ts u) ≡ true) same
                  (rw eq_refl refl)
      ]

filtered_out :
    (s : String) (known states : List String)
    → contains s known ≡ true
    → contains s (filter (λ x. not (contains x known)) states) ≡ false
filtered_out s known [] h = refl
filtered_out s known (x ∷ states) h =
    let rest = filtered_out s known states h in
    elim (Bool-cases (contains x known)) [
      | inl inside ↦ rw inside rest
      | inr outside ↦ elim (Bool-cases (x == s)) [
        | inl same ↦
            let also = subst (λ q. contains q known ≡ false) ((eq_iff x s).0 same) outside in
            absurd (cc (h, also))
        | inr other ↦ rw (outside, other, rest) refl
      ]
    ]

module _ {p : Platform} where
  -- Where no transition of the expanded topology targets a state named by the wildcard, no run of an
  -- engine that `from_schema` makes of it puts a signal in a state for which `check_schema` has an
  -- unreachable-state warning.
  pub Runs-unreachable_states :
      (w : p.World) (reads : ℕ) (schema flat : TopologySchema p.Number) {e e' : Engine p}
      → expand schema ≡ ok flat
      → from_schema p w reads schema ≡ ok e
      → All IsNamed flat.transitions
      → Runs e e'
      → (sig : SignalDef) (s : SignalState) → finds sig.id flat.signals ≡ some sig
      → lookup sig.id e'.signals ≡ some s
      → contains s.current (unreachable_states flat.transitions sig) ≡ false
  unfolding validate unreachable_states
  Runs-unreachable_states w reads schema flat {e} {e'} flattened built named runs sig s declared
        at =
      let (flat', flattened', valid, signals, transitions, _) =
        from_schema-parts p w reads schema e built in
      let same : flat' ≡ flat = ok_inj (sym flattened' ∙ flattened) in
      let checked = and_then-eq-ok (validate_signals [] flat'.signals) _ valid in
      let starts = starts-IsReachable flat.transitions flat.signals (
        subst (λ (f : TopologySchema p.Number). validate_signals [] f.signals ≡ ok tt) same
          checked.1) in
      let first : Everywhere (IsReachable flat.transitions flat.signals) e.signals =
        subst (Everywhere (IsReachable flat.transitions flat.signals))
          (sym (signals ∙ ap (λ (f : TopologySchema p.Number). initial_signals f.signals []) same))
          (initial_signals-Everywhere (IsReachable flat.transitions flat.signals) flat.signals []
            (Everywhere-empty _) starts) in
      let reached =
        Runs-invariant flat.transitions (Everywhere (IsReachable flat.transitions flat.signals))
          (λ m m' evs c all. Commits-IsReachable flat.transitions flat.signals m m' evs named c all)
          runs (transitions ∙ ap (λ (f : TopologySchema p.Number). f.transitions) same) first in
      filtered_out s.current (reachable flat.transitions sig) sig.states
        (reached.1 sig.id s at sig declared)
