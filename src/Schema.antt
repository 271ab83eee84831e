-- ===== src/Schema.antt =====
-- schema.rs: the topology types that the JSON model is read into. Field order and optionality
-- follow the source; reading them from JSON is the work of `serde`, which is not modelled.
use sig_topo.Base.{String, Option, List, ◌++◌, HashMap}
use sig_topo.Json.{Json}

pub record SignalDef : Type 0 where
  pub id : String
  pub initial_state : String
  pub states : List String

-- The lifecycle actions of a transition.
pub record ActionBinding : Type 0 where
  pub on_exit : List String
  pub on_transition : List String
  pub on_enter : List String

-- All bound action ids in lifecycle order.
unfoldable pub all_actions : ActionBinding → List String
all_actions b = b.on_exit ++ (b.on_transition ++ b.on_enter)

pub record TransitionDef : Type 0 where
  pub signal_id : String
  pub from : String
  pub event : String
  pub to : String
  pub actions : ActionBinding
  pub guard : Option String

pub record ReactionDef (N : Type 0) : Type 0 where
  pub from_signal : String
  pub from_state : String
  pub to_signal : String
  pub event : String
  pub payload : Option (Json N)
  pub guard : Option String
  pub join_group : Option String
  pub requires : List String
  pub on_fail : Option String

pub data PortDirection : Type 0 where
  in_port out_port in_out_port : PortDirection

pub record PortDef : Type 0 where
  pub direction : PortDirection
  pub signal : String
  pub state : String
  pub alias : Option String

pub record ConnectionDef : Type 0 where
  pub port : String
  pub target_signal : String

pub record ComponentDef (N : Type 0) : Type 0 where
  pub params : List String
  pub ports : List PortDef
  pub signals : List SignalDef
  pub transitions : List TransitionDef
  pub reactions : List (ReactionDef N)

pub record InstanceDef : Type 0 where
  pub component : String
  pub bindings : HashMap String
  pub connections : List ConnectionDef

pub record TopologySchema (N : Type 0) : Type 0 where
  pub version : String
  pub signals : List SignalDef
  pub transitions : List TransitionDef
  pub reactions : List (ReactionDef N)
  pub components : Option (HashMap (ComponentDef N))
  pub instances : List InstanceDef
  pub includes : List String
