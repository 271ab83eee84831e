-- ===== src/Base/Assoc.antt =====
-- Rust's `HashMap<String, V>` as an association list. The first entry of a key counts, and what
-- the order of iteration decides is not observed through these operations.
use Prim.Native.String.{String}
use mathlib.Core.Path.{◌≡◌}
use mathlib.Core.Option.{Option, none, some}
use mathlib.Core.List.{List, [], ◌∷◌}
use native.Mathlib.Omega.{arith}
use text.Mathlib.Text.{◌==◌}
use text.Mathlib.TextEquality.{eq_iff}
use sig_topo.Base.Tests.{if◌then◌else◌}

abbrev pub HashMap {ℓ} : Type ℓ → Type ℓ
HashMap V = List (String × V)

module _ {ℓ} {V : Type ℓ} where
  -- `get`
  unfoldable pub lookup : String → HashMap V → Option V
  lookup key [] = none
  lookup key (entry ∷ rest) = if entry.0 == key then some (entry.1) else lookup key rest

  -- `insert`
  unfoldable pub insert : String → V → HashMap V → HashMap V
  insert key value [] = (key, value) ∷ []
  insert key value (entry ∷ rest) =
      let written = insert key value rest in
      if entry.0 == key then (key, value) ∷ rest else entry ∷ written

  -- a write through `get_mut`
  unfoldable pub modify : String → (V → V) → HashMap V → HashMap V
  modify key f [] = []
  modify key f (entry ∷ rest) =
      let written = modify key f rest in
      if entry.0 == key then (entry.0, f (entry.1)) ∷ rest else entry ∷ written

  pub lookup-insert :
      (key at : String) (value : V) (m : HashMap V)
      → lookup at (insert key value m) ≡ (if key == at then some value else lookup at m)
  unfolding lookup insert
  lookup-insert key at value [] = ground arith
  lookup-insert key at value (e ∷ rest) =
      ground (arith, eq_iff key at, eq_iff e.0 key, eq_iff e.0 at, lookup-insert key at value rest)

  abbrev pub map_option : (V → V) → Option V → Option V
  map_option f none = none
  map_option f (some v) = some (f v)

  pub lookup-modify :
      (key at : String) (f : V → V) (m : HashMap V)
      → lookup at (modify key f m) ≡ (if key == at then map_option f (lookup at m) else lookup at m)
  unfolding lookup modify
  lookup-modify key at f [] = ground arith
  lookup-modify key at f (e ∷ rest) =
      ground (arith, eq_iff key at, eq_iff e.0 key, eq_iff e.0 at, lookup-modify key at f rest)
