-- ===== src/Compose/Connect.antt =====
-- What an instance binds and connects: `check_bindings` and `resolve_connections`.
use Prim.Native.String
use sig_topo.Base.{
  String, Bool, false, not, Option, none, some, List, [], ◌∷◌, HashMap, lookup, insert, find,
  contains, if◌then◌else◌, ◌==◌, Result, ok, err, and_then, ok_or,
}
use sig_topo.Error.{
  EngineError, missing_binding, unknown_port, conflicting_port_connection, port_unknown_signal,
  port_unknown_state,
}
use sig_topo.Schema.{SignalDef, PortDef, ConnectionDef}
use sig_topo.Compose.Subst.{subst, subst_vec}

-- Every declared parameter is bound; what else the bindings hold is dropped.
unfoldable pub check_bindings :
    List String → HashMap String → String → HashMap String → Result EngineError (HashMap String)
check_bindings [] bindings owner bound = ok bound
check_bindings (param ∷ params) bindings owner bound =
    and_then (ok_or (lookup param bindings) (missing_binding owner param))
      λ value. check_bindings params bindings owner (insert param value bound)

-- A port is addressed by its alias, or by signal and state.
unfoldable pub port_name : PortDef → HashMap String → String
unfolding subst
port_name port bound = elim port.alias [
  | some alias ↦ alias
  | none ↦ String.◌++◌ (subst port.signal bound) (String.◌++◌ "." (subst port.state bound))
]

-- The signals of a component with their states, substituted.
unfoldable pub port_signals :
    List SignalDef → HashMap String → HashMap (List String) → HashMap (List String)
unfolding subst subst_vec
port_signals [] bound m = m
port_signals (s ∷ sigs) bound m =
    port_signals sigs bound (insert (subst s.id bound) (subst_vec s.states bound) m)

-- A signal may be wired again to the same target only.
abbrev is_conflict : Option String → String → Bool
is_conflict none target = false
is_conflict (some existing) target = not (existing == target)

unfoldable pub connect :
    String
    → HashMap String
    → HashMap (List String)
    → ConnectionDef
    → PortDef
    → HashMap String
    → Result EngineError (HashMap String)
unfolding subst
connect owner bound signals conn port remap =
    let signal_id = subst port.signal bound in
    let state = subst port.state bound in
    let target = subst conn.target_signal bound in
    and_then (ok_or (lookup signal_id signals) (port_unknown_signal owner conn.port signal_id))
      λ states.
        if not (contains state states)
        then err (port_unknown_state owner conn.port signal_id state)
        else if is_conflict (lookup signal_id remap) target
        then err (conflicting_port_connection owner conn.port)
        else ok (insert signal_id target remap)

unfoldable pub resolve_connections :
    String
    → HashMap String
    → List PortDef
    → HashMap (List String)
    → List ConnectionDef
    → HashMap String
    → Result EngineError (HashMap String)
unfolding port_name connect
resolve_connections owner bound ports signals [] remap = ok remap
resolve_connections owner bound ports signals (conn ∷ conns) remap =
    and_then
      (ok_or (find (λ port. port_name port bound == conn.port) ports)
        (unknown_port owner conn.port))
      λ port.
        and_then (connect owner bound signals conn port remap)
          λ remap'. resolve_connections owner bound ports signals conns remap'
