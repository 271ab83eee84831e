-- ===== src/Run/Keeps.antt =====
-- The handlers of a run leave the fail set alone, and so does a whole call of `send_event`.
use Prim.Native.String.{◌++◌}
use sig_topo.Base.{
  ℕ, String, Bool, ◌≡◌, refl, sym, ap, subst, ◌∙◌, inl, inr, Option, some, arith, Option-cases,
  HashMap, lookup, Result, ok, err,
}
use sig_topo.Json.{Platform, Json}
use sig_topo.Error.{EngineError}
use sig_topo.Trace.{TraceEvent}
use sig_topo.Context.{ActionContext}
use sig_topo.Engine.State.{ActionFn, Engine, record_event, set_current, ◌>>=◌}
use sig_topo.Engine.Action.{call, after_call, run_action}
use sig_topo.Engine.Send.{send_event}
use sig_topo.Engine.Holds.{Holds, IsPreorder}
use sig_topo.Engine.Walk.{send_event-Holds}
use sig_topo.Run.{FailSet, IsCell, handler}

module _ {p : Platform} (fail_set : FailSet p) (println : String → p.World → p.World)
    (recording : Bool) where
  -- Every callback is the handler of a run that shares the fail set.
  abbrev pub IsRegistered : HashMap (ActionFn p) → Type 0
  IsRegistered actions =
      (id : String) (f : ActionFn p)
      → lookup id actions ≡ some f
      → f ≡ handler println (some fail_set) recording id

  abbrev pub Keeps : Engine p → Engine p → Type 0
  Keeps e e' =
      IsRegistered e.actions
      → (e'.actions ≡ e.actions) × (fail_set.borrow e'.world ≡ fail_set.borrow e.world)

  pub Keeps-preorder : IsPreorder {p = p} Keeps
  Keeps-preorder = record {
    same = λ e registered. (refl, refl);
    trans = λ e f g h k registered.
        let first = h registered in
        let second = k (subst IsRegistered (sym (first.0)) registered) in
        (second.0 ∙ first.0, second.1 ∙ first.1);
  }

  pub record_event-Keeps :
      (event : ℕ → TraceEvent) → Holds {p = p} Keeps (record_event {p = p} event)
  unfolding record_event
  record_event-Keeps event = record { at = λ e registered. (refl, refl) }

  pub set_current-Keeps : (sid state : String) → Holds {p = p} Keeps (set_current {p = p} sid state)
  unfolding set_current
  set_current-Keeps sid state = record { at = λ e registered. (refl, refl) }

  module _ (cell : IsCell fail_set println) where
    pub handler-borrow :
        (id : String) (ctx : ActionContext p) (w : p.World)
        → fail_set.borrow (handler println (some fail_set) recording id ctx w).1 ≡ fail_set.borrow w
    unfolding handler
    handler-borrow id ctx w =
        ground (arith, cell.borrow-println ("[action] " ++ ctx.signal_id ++ "." ++ id) w)

    after_call-Keeps :
        (sid id : String) (r : Result EngineError (Unit {0})) (e : Engine p)
        → ((after_call sid id r e).1.actions ≡ e.actions)
          × ((after_call sid id r e).1.world ≡ e.world)
    unfolding after_call record_event ◌>>=◌
    after_call-Keeps sid id (ok _) e = (refl, refl)
    after_call-Keeps sid id (err x) e = (refl, refl)

    called-Keeps :
        (sid id : String) (ctx : ActionContext p) (f : ActionFn p) (e : Engine p)
        → f ≡ handler println (some fail_set) recording id
        → let e' = (call f ctx >>= after_call sid id) e in
          (e'.1.actions ≡ e.actions) × (fail_set.borrow e'.1.world ≡ fail_set.borrow e.world)
    unfolding call ◌>>=◌
    called-Keeps sid id ctx f e same =
        let kept =
          after_call-Keeps sid id (f ctx e.world).0 (record e { world = (f ctx e.world).1 }) in
        (
          kept.0,
          ap fail_set.borrow kept.1
              ∙ ap (λ g. fail_set.borrow (g ctx e.world).1) same
              ∙ handler-borrow id ctx e.world,
        )

    pub run_action-Keeps :
        (sid id : String) (ctx : ActionContext p)
        → Holds {p = p} Keeps (run_action {p = p} sid id ctx)
    unfolding run_action record_event call ◌>>=◌
    run_action-Keeps sid id ctx = record {
      at = λ e registered. elim (Option-cases (lookup id e.actions)) [
        | inl missing ↦ rw missing (refl, refl)
        | inr (f, found) ↦ rw found (called-Keeps sid id ctx f _ (registered id f found))
      ];
    }

    pub send_event-Keeps :
        (sid event : String) (payload : Option (Json p.Number))
        → Holds {p = p} Keeps (send_event {p = p} sid event payload)
    send_event-Keeps =
        send_event-Holds Keeps-preorder record_event-Keeps set_current-Keeps run_action-Keeps
