-- ===== src/Compose/Load.antt =====
-- compose.rs: `load_topology`, which merges the files that a topology includes.
use Prim.Native.String.{◌++◌}
use mathlib.Core.List
use sig_topo.Base.{
  ℕ, zero, suc, String, Option, none, some, List, [], ◌∷◌, HashMap, insert, any, contains,
  if◌then◌else◌, ◌==◌, Result, ok, err, and_then, map_err,
}
use sig_topo.Json.{Platform}
use sig_topo.Error.{EngineError, include_not_found, include_cycle, duplicate_signal_after_expand}
use sig_topo.Schema.{SignalDef, ComponentDef, TopologySchema}
use sig_topo.Compose.Expand.{expand, or_no_components}
use sig_topo.Engine.State.{Engine}
use sig_topo.Engine.Build.{from_schema}

-- The file system, `serde_json::from_str`, and `path.parent().join(include)`.
pub record Files (N : Type 0) : Type 0 where
  pub read_to_string : String → Option String
  pub from_str : String → Result String (TopologySchema N)
  pub canonicalize : String → Option String
  pub join_parent : String → String → String

abbrev pub found_or : {A : Type 0} → Option A → String → Result EngineError A
found_or none path = err (include_not_found path)
found_or (some a) path = ok a

-- The first signal of the second topology that the first has as well.
unfoldable pub check_duplicates : List SignalDef → List SignalDef → Result EngineError (Unit {0})
check_duplicates own [] = ok tt
check_duplicates own (sig ∷ sigs) =
    if any (λ s. s.id == sig.id) own
    then err (duplicate_signal_after_expand sig.id)
    else check_duplicates own sigs

-- A topology and the canonical paths seen so far; `none` where the fuel ran out.
abbrev pub Loaded : Type 0 → Type 0
Loaded N = Option (Result EngineError (TopologySchema N × List String))

module _ {N : Type 0} where
  unfoldable pub insert_all :
      HashMap (ComponentDef N) → HashMap (ComponentDef N) → HashMap (ComponentDef N)
  insert_all [] acc = acc
  insert_all (entry ∷ entries) acc = insert_all entries (insert entry.0 entry.1 acc)

  abbrev merge_components :
      Option (HashMap (ComponentDef N))
      → Option (HashMap (ComponentDef N))
      → Option (HashMap (ComponentDef N))
  merge_components acc none = acc
  merge_components acc (some sub) = some (insert_all sub (or_no_components acc))

  -- The instances of the second are not taken over.
  unfoldable pub merge_in :
      TopologySchema N → TopologySchema N → Result EngineError (TopologySchema N)
  unfolding check_duplicates insert_all
  merge_in acc sub = and_then (check_duplicates acc.signals sub.signals) λ _. ok (record acc {
    signals = List.◌++◌ acc.signals sub.signals;
    transitions = List.◌++◌ acc.transitions sub.transitions;
    reactions = List.◌++◌ acc.reactions sub.reactions;
    components = merge_components acc.components sub.components;
  })

  abbrev pub and_load : Loaded N → (TopologySchema N → List String → Loaded N) → Loaded N
  and_load none k = none
  and_load (some (err x)) k = some (err x)
  and_load (some (ok (schema, seen))) k = k schema seen

  -- The reading and parsing of one file, and its canonical path.
  unfoldable pub read_file : Files N → String → Result EngineError (TopologySchema N × String)
  read_file files path = and_then (found_or (files.read_to_string path) path) λ text.
      and_then (map_err (λ e. include_not_found (path ++ ": " ++ e)) (files.from_str text))
        λ schema.
          and_then (found_or (files.canonicalize path) path) λ canonical. ok (schema, canonical)

  abbrev merge_then :
      TopologySchema N
      → TopologySchema N
      → List String
      → (TopologySchema N → List String → Loaded N)
      → Loaded N
  merge_then acc sub seen k = elim (merge_in acc sub) [
    | err x ↦ some (err x)
    | ok merged ↦ k merged seen
  ]

  -- The loop over the includes; `load` is the call that it makes.
  unfoldable pub load_includes :
      (String → List String → Loaded N)
      → (String → String)
      → List String
      → TopologySchema N
      → List String
      → Loaded N
  unfolding merge_in
  load_includes load join [] merged seen = some (ok (merged, seen))
  load_includes load join (inc ∷ includes) merged seen =
      and_load (load (join inc) seen)
        λ sub seen'. merge_then merged sub seen' (load_includes load join includes)

  abbrev load_read :
      (String → List String → Loaded N)
      → Files N
      → String
      → List String
      → Result EngineError (TopologySchema N × String)
      → Loaded N
  load_read load files path seen (err x) = some (err x)
  load_read load files path seen (ok (schema, canonical)) =
      if contains canonical seen
      then some (err (include_cycle path))
      else load_includes load (files.join_parent path) schema.includes
          (record schema { includes = [] }) (canonical ∷ seen)

  unfoldable pub load_topology_inner : Files N → ℕ → String → List String → Loaded N
  unfolding read_file load_includes
  load_topology_inner files zero path seen = none
  load_topology_inner files (suc fuel) path seen =
      load_read (load_topology_inner files fuel) files path seen (read_file files path)

  abbrev pub expand_loaded : Loaded N → Option (Result EngineError (TopologySchema N))
  expand_loaded none = none
  expand_loaded (some (err x)) = some (err x)
  expand_loaded (some (ok (merged, seen))) = some (expand merged)

  unfoldable pub load_topology :
      Files N → ℕ → String → Option (Result EngineError (TopologySchema N))
  unfolding load_topology_inner expand
  load_topology files fuel path = expand_loaded (load_topology_inner files fuel path [])

abbrev built :
    (p : Platform)
    → p.World
    → ℕ
    → Option (Result EngineError (TopologySchema p.Number))
    → Option (Result EngineError (Engine p))
built p world clock_reads none = none
built p world clock_reads (some r) = some (and_then r (from_schema p world clock_reads))

unfoldable pub from_path :
    (p : Platform)
    → Files p.Number
    → ℕ
    → String
    → p.World
    → ℕ
    → Option (Result EngineError (Engine p))
unfolding load_topology from_schema
from_path p files fuel path world clock_reads =
    built p world clock_reads (load_topology files fuel path)
