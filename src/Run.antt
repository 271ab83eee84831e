-- ===== src/Run.antt =====
-- src/run.rs: the replay of a scenario, shared by the shell and the batch tool. The fail set is a
-- cell that the handlers and the replay share, so it is a part of the world of callbacks.
pub mod Format
pub mod Names
pub mod Keeps
pub mod Scopes
pub mod Phase
pub mod Injects
pub mod Rollback
pub mod Why
pub mod Loads
use Prim.Native.String.{◌++◌}
use mathlib.Core.List
use sig_topo.Base.{
  ℕ, String, Bool, false, not, Option, none, some, ◌≡◌, List, [], ◌∷◌, contains, filter,
  if◌then◌else◌, ◌==◌, Result, ok, err, map_err, and_then,
}
use sig_topo.Json.{Platform, Json}
use sig_topo.Error.{EngineError, action_execution_error, to_string}
use sig_topo.Schema.{TransitionDef, TopologySchema, all_actions}
use sig_topo.Engine.State.{ActionFn, Engine}
use sig_topo.Engine.Reaction.{current_or_empty}
use sig_topo.Engine.Send.{send_event}
use sig_topo.Engine.Build.{from_schema, register_action}
use sig_topo.Compose.Load.{Files, load_topology}

pub record ScenarioEvent (N : Type 0) : Type 0 where
  pub signal_id : String
  pub event : String
  pub payload : Option (Json N)
  pub fail_actions : List String

pub record Scenario (N : Type 0) : Type 0 where
  pub events : List (ScenarioEvent N)

pub record ScenarioError : Type 0 where
  pub signal_id : String
  pub event : String
  pub error : EngineError
  pub state_after : String

-- `insert` and `remove` on a `HashSet<String>`, and the loops that call them.
unfoldable pub set_insert : String → List String → List String
set_insert name names = if contains name names then names else name ∷ names

unfoldable pub set_remove : String → List String → List String
set_remove name = filter (λ x. not (x == name))

-- `ids.extend(...)`
unfoldable pub extend : List String → List String → List String
unfolding set_insert
extend [] ids = ids
extend (id ∷ rest) ids = extend rest (set_insert id ids)

abbrev pub extend_all : List TransitionDef → List String → List String
extend_all [] ids = ids
extend_all (t ∷ ts) ids = extend_all ts (extend (all_actions t.actions) ids)

unfoldable pub collect_action_ids : {N : Type 0} → TopologySchema N → List String
unfolding extend all_actions
collect_action_ids schema = extend_all schema.transitions []

-- The `Rc<RefCell<HashSet<String>>>` as a part of the world.
pub record FailSet (p : Platform) : Type 0 where
  pub borrow : p.World → List String
  pub replace : List String → p.World → p.World

-- What is written to the cell is read from it, and nothing else changes; printing leaves it alone.
pub record IsCell {p : Platform} (fail_set : FailSet p) (println : String → p.World → p.World)
    : Type 0 where
  pub borrow-replace :
      (names : List String) (w : p.World) → fail_set.borrow (fail_set.replace names w) ≡ names
  pub replace-replace :
      (names before : List String) (w : p.World)
      → fail_set.replace names (fail_set.replace before w) ≡ fail_set.replace names w
  pub replace-borrow : (w : p.World) → fail_set.replace (fail_set.borrow w) w ≡ w
  pub borrow-println :
      (line : String) (w : p.World) → fail_set.borrow (println line w) ≡ fail_set.borrow w

unfoldable pub injected_failure : String → EngineError
injected_failure id =
    action_execution_error ("injected failure for action '" ++ id ++ "' (set via `fail`)")

module _ {p : Platform} where
  -- Whether a fail set was given, and whether it has the id.
  abbrev pub is_injected : Option (FailSet p) → String → p.World → Bool
  is_injected none id w = false
  is_injected (some cell) id w = contains id (cell.borrow w)

  -- The closure that is registered for an action.
  unfoldable pub handler :
      (String → p.World → p.World) → Option (FailSet p) → Bool → String → ActionFn p
  unfolding injected_failure
  handler println fail_set recording id ctx w =
      if is_injected fail_set id w
      then (err (injected_failure id), w)
      else (ok tt, if recording then println ("[action] " ++ ctx.signal_id ++ "." ++ id) w else w)

  unfoldable pub register_actions :
      (String → p.World → p.World) → Option (FailSet p) → Bool → List String → Engine p → Engine p
  unfolding register_action handler
  register_actions println fail_set recording [] e = e
  register_actions println fail_set recording (id ∷ ids) e =
      register_actions println fail_set recording ids
        (register_action p id (handler println fail_set recording id) e)

  -- `borrow_mut().insert(...)` and `borrow_mut().remove(...)` for each of the names.
  unfoldable pub insert_names : FailSet p → List String → p.World → p.World
  unfolding set_insert
  insert_names fail_set [] w = w
  insert_names fail_set (name ∷ names) w =
      insert_names fail_set names (fail_set.replace (set_insert name (fail_set.borrow w)) w)

  unfoldable pub remove_names : FailSet p → List String → p.World → p.World
  unfolding set_remove
  remove_names fail_set [] w = w
  remove_names fail_set (name ∷ names) w =
      remove_names fail_set names (fail_set.replace (set_remove name (fail_set.borrow w)) w)

  abbrev pub scenario_errors :
      {A : Type 0} → ScenarioEvent p.Number → Result EngineError A → Engine p → List ScenarioError
  scenario_errors ev (ok _) e = []
  scenario_errors ev (err x) e =
      record {
        signal_id = ev.signal_id;
        event = ev.event;
        error = x;
        state_after = current_or_empty ev.signal_id e;
      }
      ∷ []

  -- The body of the loop over the events: the errors that it pushes, none or one.
  unfoldable pub run_event :
      FailSet p → ScenarioEvent p.Number → Engine p → List ScenarioError × Engine p
  unfolding insert_names remove_names send_event current_or_empty
  run_event fail_set ev e =
      let armed = record e { world = insert_names fail_set ev.fail_actions e.world } in
      let (result, after) = send_event ev.signal_id ev.event ev.payload armed in
      (
        scenario_errors ev result after,
        record after { world = remove_names fail_set ev.fail_actions after.world },
      )

  unfoldable pub run_events :
      FailSet p
      → List (ScenarioEvent p.Number)
      → List ScenarioError
      → Engine p
      → List ScenarioError × Engine p
  unfolding run_event
  run_events fail_set [] errors e = (errors, e)
  run_events fail_set (ev ∷ events) errors e =
      let (pushed, e') = run_event fail_set ev e in
      run_events fail_set events (List.◌++◌ errors pushed) e'

  unfoldable pub run_scenario :
      FailSet p → Scenario p.Number → Engine p → List ScenarioError × Engine p
  unfolding run_events
  run_scenario fail_set scenario = run_events fail_set scenario.events []

module _ (p : Platform) where
  abbrev pub built_for_run :
      (Engine p → Engine p) → Result EngineError (Engine p) → Result String (Engine p)
  built_for_run register built =
      and_then (map_err (λ x. "Failed to load topology: " ++ to_string x) built)
        λ e. ok (register e)

  -- An error is the message on standard error before the process exits with code 1.
  abbrev pub loaded_for_run :
      (String → p.World → p.World)
      → Option (FailSet p)
      → Bool
      → String
      → p.World
      → ℕ
      → Option (Result EngineError (TopologySchema p.Number))
      → Option (Result String (Engine p))
  loaded_for_run println fail_set recording path world clock_reads none = none
  loaded_for_run println fail_set recording path world clock_reads (some (err x)) =
      some (err ("Failed to load topology '" ++ path ++ "': " ++ to_string x))
  loaded_for_run println fail_set recording path world clock_reads (some (ok schema)) = some (
      built_for_run (register_actions println fail_set recording (collect_action_ids schema))
        (from_schema p world clock_reads schema))

  unfoldable pub load_topology_for_run :
      (String → p.World → p.World)
      → Option (FailSet p)
      → Bool
      → Files p.Number
      → ℕ
      → String
      → p.World
      → ℕ
      → Option (Result String (Engine p))
  unfolding load_topology from_schema register_actions collect_action_ids to_string
  load_topology_for_run println fail_set recording files fuel path world clock_reads =
      loaded_for_run println fail_set recording path world clock_reads
        (load_topology files fuel path)
