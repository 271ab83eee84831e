-- ===== src/Ddl/Ast.antt =====
-- ddl/parser.rs: the syntax tree of a document.
use sig_topo.Base.{String, Option, List, HashMap}
use sig_topo.Schema.{PortDef, ConnectionDef}

pub record DdlActionBinding : Type 0 where
  pub on_exit : List String
  pub on_transition : List String
  pub on_enter : List String

pub record TransDecl : Type 0 where
  pub event : String
  pub from : String
  pub to : String
  pub guard : Option String
  pub actions : DdlActionBinding

pub record SignalDecl : Type 0 where
  pub id : String
  pub states : List String
  pub initial : String
  pub transitions : List TransDecl

-- `guard_ref` names the template where the guard was written `when <id>`; the payload is text.
pub record ReactionDecl : Type 0 where
  pub from_signal : String
  pub from_state : String
  pub to_signal : String
  pub event : String
  pub guard : Option String
  pub guard_ref : Option String
  pub payload : Option String
  pub join_group : Option String
  pub requires : List String
  pub on_fail : Option String

pub record ComponentDecl : Type 0 where
  pub id : String
  pub params : List String
  pub ports : List PortDef
  pub signals : List SignalDecl
  pub reactions : List ReactionDecl

pub record InstantiateDecl : Type 0 where
  pub component : String
  pub bindings : HashMap String
  pub connections : List ConnectionDef

pub record GuardDecl : Type 0 where
  pub id : String
  pub expr : String

pub record DdlDoc : Type 0 where
  pub signals : List SignalDecl
  pub reactions : List ReactionDecl
  pub guards : List GuardDecl
  pub components : List ComponentDecl
  pub instantiates : List InstantiateDecl
