-- ===== src/Persist/Restores.antt =====
-- What `load_state` does to the signals, and that it undoes whatever happened since `save_state`.
use sig_topo.Base.{
  String, ◌≡◌, refl, sym, ap, subst, ◌∙◌, true, Option, none, some, List, [], ◌∷◌, map, HashMap,
  lookup, modify, lookup-modify, map_option, ok, contains, All, arith, ◌==◌, eq_iff, eq_refl,
  Bool-cases, Option-cases, inl, inr,
}
use sig_topo.Json.{Platform}
use sig_topo.Engine.State.{SignalState, Engine}
use sig_topo.Engine.Commits.{moved}
use sig_topo.Engine.WellFormed.{Everywhere, InStates}
use mathlib.Core.Option
use sig_topo.Persist.{entry_state, save_state, check_snapshot, restore, load_state}

-- The keys are distinct, as those of a `HashMap` are.
abbrev pub IsDistinct : {V : Type 0} → HashMap V → Type 0
IsDistinct [] = Unit
IsDistinct (entry ∷ rest) = (lookup entry.0 rest ≡ none) × IsDistinct rest

-- A signal after a snapshot with this entry for it.
abbrev pub restored : Option String → SignalState → SignalState
restored none s = s
restored (some state) s = moved state s

map_option_twice :
    (state : String) (o : Option SignalState)
    → map_option (restored none) (map_option (moved state) o) ≡ map_option (restored (some state)) o
map_option_twice state none = refl
map_option_twice state (some s) = refl

map_option_same : (o : Option SignalState) → map_option (restored none) o ≡ o
map_option_same none = refl
map_option_same (some s) = refl

pub lookup-restore :
    (sid : String) (states : HashMap String) (m : HashMap SignalState)
    → IsDistinct states
    → lookup sid (restore states m) ≡ map_option (restored (lookup sid states)) (lookup sid m)
unfolding restore lookup
lookup-restore sid [] m d = sym (map_option_same (lookup sid m))
lookup-restore sid ((k, state) ∷ states) m d =
    let rest = lookup-restore sid states (modify k (moved state) m) d.1 in
    elim (Bool-cases (k == sid)) [
      | inl same ↦
          let missing : lookup sid states ≡ none =
            ap (λ q. lookup q states) (sym ((eq_iff k sid).0 same)) ∙ d.0 in
          rest ∙ (rw (lookup-modify, same, missing) (map_option_twice state (lookup sid m)))
      | inr other ↦ rest ∙ (rw (lookup-modify, other) refl)
    ]

-- Two tables with the same signals, and of each the same states and initial state: they are equal
-- once every current state is overwritten.
abbrev pub IsAlike : HashMap SignalState → HashMap SignalState → Type 0
IsAlike m m' =
    (sid : String) → map_option (moved "") (lookup sid m) ≡ map_option (moved "") (lookup sid m')

-- A snapshot of a table that is well-formed passes the check against any table that is alike.
module _ (whole : HashMap SignalState) where
  abbrev pub IsVisible : String × SignalState → Type 0
  IsVisible entry = lookup entry.0 whole ≡ some entry.1

All-IsVisible :
    (m : HashMap SignalState) (k : String) (v : SignalState) (es : List (String × SignalState))
    → lookup k m ≡ none
    → All (IsVisible m) es
    → All (IsVisible ((k, v) ∷ m)) es
unfolding lookup
All-IsVisible m k v [] h a = tt
All-IsVisible m k v (entry ∷ es) h a = (
  elim (Bool-cases (k == entry.0)) [
    | inl same ↦
        let gone : lookup entry.0 m ≡ none =
          ap (λ q. lookup q m) (sym ((eq_iff k entry.0).0 same)) ∙ h in
        let there = a.0 in absurd (cc (gone, there))
    | inr other ↦ rw other a.0
  ],
  All-IsVisible m k v es h a.1,
)

pub visible : (m : HashMap SignalState) → IsDistinct m → All (IsVisible m) m
unfolding lookup
visible [] d = tt
visible ((k, v) ∷ m) d = (rw eq_refl refl, All-IsVisible m k v m d.0 (visible m d.1))

check_snapshot_alike :
    (m m' : HashMap SignalState) (es : List (String × SignalState))
    → Everywhere InStates m
    → IsAlike m m'
    → All (IsVisible m) es
    → check_snapshot m' (map entry_state es) ≡ ok tt
unfolding check_snapshot
check_snapshot_alike m m' [] placed alike a = refl
check_snapshot_alike m m' ((k, s) ∷ es) placed alike a =
    let rest = check_snapshot_alike m m' es placed alike a.1 in
    let inside = placed k s a.0 in
    let same = rw (a.0) at (alike k) in
    elim (Option-cases (lookup k m')) [
      | inl missing ↦ absurd (cc (rw missing at same))
      | inr (s', found) ↦
          let equal : s.states ≡ s'.states =
            ap (λ (u : Option SignalState). elim u [ none ↦ [] | some v ↦ v.states ])
              (rw found at same) in
          let inside' : contains s.current s'.states ≡ true =
            subst (λ l. contains s.current l ≡ true) equal inside in
          rw (found, inside') rest
    ]

pub lookup-entry_state :
    (sid : String) (m : HashMap SignalState)
    → lookup sid (map entry_state m) ≡ Option.map (λ (s : SignalState). s.current) (lookup sid m)
unfolding lookup
lookup-entry_state sid [] = refl
lookup-entry_state sid ((k, s) ∷ m) = ground (arith, lookup-entry_state sid m)

pub check_snapshot-save :
    {p : Platform} (e e' : Engine p)
    → IsDistinct e.signals
    → Everywhere InStates e.signals
    → IsAlike e.signals e'.signals
    → check_snapshot e'.signals (save_state e).states ≡ ok tt
unfolding save_state
check_snapshot-save e e' d placed alike =
    check_snapshot_alike e.signals e'.signals e.signals placed alike (visible e.signals d)

entry_state-IsDistinct : (m : HashMap SignalState) → IsDistinct m → IsDistinct (map entry_state m)
entry_state-IsDistinct [] d = tt
entry_state-IsDistinct ((k, s) ∷ m) d = (
  lookup-entry_state k m ∙ ap (Option.map (λ (t : SignalState). t.current)) d.0,
  entry_state-IsDistinct m d.1,
)

restored_back :
    (o o' : Option SignalState)
    → map_option (moved "") o ≡ map_option (moved "") o'
    → map_option (restored (Option.map (λ (s : SignalState). s.current) o)) o' ≡ o
restored_back none none h = refl
restored_back none (some s') h = absurd (cc h)
restored_back (some s) none h = absurd (cc h)
restored_back (some s) (some s') h =
    sym (
      ap (λ (u : Option SignalState). elim u [ none ↦ none | some v ↦ some (moved s.current v) ]) h)

lookup-restore_save :
    {p : Platform} (e e' : Engine p) (sid : String)
    → IsDistinct e.signals
    → IsAlike e.signals e'.signals
    → lookup sid (restore (save_state e).states e'.signals) ≡ lookup sid e.signals
unfolding save_state
lookup-restore_save e e' sid d alike =
    lookup-restore sid (map entry_state e.signals) e'.signals (entry_state-IsDistinct e.signals d)
    ∙ rw lookup-entry_state
        (restored_back (lookup sid e.signals) (lookup sid e'.signals) (alike sid))

-- Where the state of an engine `e` was saved, with distinct signals that are all in a declared
-- state, loading it into an engine with the same signals and declared states, whatever their current
-- states, succeeds and gives every signal the state it has in `e`; all else of the engine is kept.
pub load_state-save :
    {p : Platform} (e e' : Engine p)
    → IsDistinct e.signals
    → Everywhere InStates e.signals
    → IsAlike e.signals e'.signals
    → let r = load_state (ok (save_state e)) e' in
      (r.0 ≡ ok tt)
      × (r.1 ≡ record e' { signals = r.1.signals })
      × ((sid : String) → lookup sid r.1.signals ≡ lookup sid e.signals)
unfolding load_state
load_state-save e e' d placed alike =
    rw (check_snapshot-save e e' d placed alike)
      (refl, refl, λ sid. lookup-restore_save e e' sid d alike)
