-- ===== src/Context.antt =====
-- `ActionContext` of engine.rs, which guards and action callbacks read.
use sig_topo.Base.{String, Option}
use sig_topo.Json.{Json, Platform}

pub record ActionContext (p : Platform) : Type 0 where
  pub signal_id : String
  pub from_state : String
  pub to_state : String
  pub event : String
  pub payload : Option (Json p.Number)
  pub failure : Option String
