-- ===== src/Engine/Reacts.antt =====
-- That one reaction does what `Outcome` has.
use Prim.Native.String
use sig_topo.Base.{
  ℕ, ◌+◌, String, ◌≡◌, refl, sym, ap, subst, ◌∙◌, Bool, true, false, Option, none, some, lookup,
  Result, ok, err,
}
use sig_topo.Json.{Platform, Json}
use sig_topo.Error.{EngineError, to_string}
use sig_topo.Schema.{ReactionDef}
use sig_topo.Guard.Eval.{eval_guard}
use sig_topo.Engine.State.{Engine, ◌>>=◌}
use sig_topo.Engine.Action.{run_action}
use sig_topo.Engine.Reaction.{
  TransitionResult, Sender, passes, guard_result_text, current_or_empty, evaluate_reaction_guard,
  compensate, after_cascade, cascade, fire_one_reaction,
}
use sig_topo.Engine.Outcome.{
  state_or_empty, context_at, context, noted, told, IsCompensated, IsSent, IsJudged, IsReaction,
}
use sig_topo.Engine.Still.{compensate-IsStill}

module _ {p : Platform} (r : ReactionDef p.Number) (payload : Option (Json p.Number))
    (sid : String) where
  current-state_or_empty :
      (e : Engine p)
      → current_or_empty r.to_signal e ≡ state_or_empty (lookup r.to_signal e.signals)
  unfolding current_or_empty
  current-state_or_empty e =
      elim (lookup r.to_signal e.signals)
        as (λ o. elim o as (λ x. String) [ none ↦ "" | some s ↦ s.current ] ≡ state_or_empty o) [
          | none ↦ refl
          | some s ↦ refl
        ]

  compensate-hook :
      (message id : String) (e : Engine p)
      → (compensate r payload sid message (some id) e).1
        ≡ told r payload sid id message
            (run_action r.to_signal id
              (context_at r payload sid (some message) (current_or_empty r.to_signal e))
              e).1
  unfolding compensate
  compensate-hook message id e = refl

  compensate-ok :
      (message : String) (hook : Option String) (e : Engine p)
      → (compensate r payload sid message hook e).0 ≡ ok tt
  unfolding compensate
  compensate-ok message none e = refl
  compensate-ok message (some id) e = refl

  compensate-none :
      (message : String) (e : Engine p) → (compensate r payload sid message none e).1 ≡ e
  unfolding compensate
  compensate-none message e = refl

  compensate-IsCompensated :
      (message : String) (hook : Option String) (e : Engine p)
      → IsCompensated r payload sid hook message e (compensate r payload sid message hook e).1
  compensate-IsCompensated message none e = compensate-none message e
  compensate-IsCompensated message (some id) e = (
    (compensate-IsStill r payload sid message (some id)).at e,
    compensate-hook message id e
        ∙ ap
            (λ state.
              told r payload sid id message
                (run_action r.to_signal id (context_at r payload sid (some message) state) e).1)
            (current-state_or_empty e),
  )

  after_cascade-ok :
      (result : TransitionResult) (e : Engine p)
      → after_cascade r payload sid (ok result) e ≡ (ok tt, e)
  unfolding after_cascade
  after_cascade-ok result e = refl

  after_cascade-err :
      (x : EngineError) (e : Engine p)
      → after_cascade r payload sid (err x) e
        ≡ (err x, (compensate r payload sid (to_string x) r.on_fail e).1)
  unfolding after_cascade ◌>>=◌
  after_cascade-err x e = rw (compensate-ok (to_string x) r.on_fail e) refl

  after_cascade-IsSent :
      (result : Result EngineError TransitionResult) (e : Engine p)
      → IsSent r payload sid (result, e) (after_cascade r payload sid result e)
  after_cascade-IsSent (ok result) e = after_cascade-ok result e
  after_cascade-IsSent (err x) e =
      subst (IsSent r payload sid (err x, e)) (sym (after_cascade-err x e))
        (refl, compensate-IsCompensated (to_string x) r.on_fail e)

  evaluate-none : (e : Engine p) → evaluate_reaction_guard r payload sid none e ≡ (ok true, e)
  unfolding evaluate_reaction_guard
  evaluate-none e = refl

  evaluate-some :
      (guard : String) (e : Engine p)
      → let judged =
          eval_guard p guard (context_at r payload sid none (current_or_empty r.to_signal e)) in
        evaluate_reaction_guard r payload sid (some guard) e
        ≡ (ok (passes judged), noted r payload sid guard (guard_result_text judged) e)
  unfolding evaluate_reaction_guard
  evaluate-some guard e = refl

  evaluate-judged :
      (guard : String) (e : Engine p)
      → let judged = eval_guard p guard (context r payload sid none e) in
        evaluate_reaction_guard r payload sid (some guard) e
        ≡ (ok (passes judged), noted r payload sid guard (guard_result_text judged) e)
  evaluate-judged guard e =
      subst
        (λ state.
          let judged = eval_guard p guard (context_at r payload sid none state) in
          evaluate_reaction_guard r payload sid (some guard) e
          ≡ (ok (passes judged), noted r payload sid guard (guard_result_text judged) e))
        (current-state_or_empty e) (evaluate-some guard e)

  cascade-false :
      (send : Sender p) (depth : ℕ) (e : Engine p)
      → cascade send r payload depth sid false e ≡ (ok tt, e)
  unfolding cascade
  cascade-false send depth e = refl

  module _ (send : Sender p) (depth : ℕ) where
    -- What the reaction sends.
    abbrev pub sends : Engine p → Result EngineError TransitionResult × Engine p
    sends = send r.to_signal r.event r.payload r.payload (depth + 1)

    cascade-true :
        (e : Engine p)
        → cascade send r payload depth sid true e
          ≡ after_cascade r payload sid (sends e).0 (sends e).1
    unfolding cascade
    cascade-true e = refl

    cascade-IsSent :
        (e : Engine p) → IsSent r payload sid (sends e) (cascade send r payload depth sid true e)
    cascade-IsSent e =
        subst (IsSent r payload sid (sends e)) (sym (cascade-true e))
          (after_cascade-IsSent (sends e).0 (sends e).1)

    cascade-IsJudged :
        (guard : String) (judged : Result String Bool) (e : Engine p)
        → IsJudged r payload sid sends guard judged e (
            cascade send r payload depth sid
              (passes judged)
              (noted r payload sid guard (guard_result_text judged) e))
    unfolding guard_result_text
    cascade-IsJudged guard (ok true) e = cascade-IsSent (noted r payload sid guard "true" e)
    cascade-IsJudged guard (ok false) e =
        cascade-false send depth (noted r payload sid guard "false" e)
    cascade-IsJudged guard (err m) e =
        cascade-false send depth (noted r payload sid guard (String.◌++◌ "error: " m) e)

    fire-steps :
        (fires : Bool) (e after : Engine p)
        → evaluate_reaction_guard r payload sid r.guard e ≡ (ok fires, after)
        → fire_one_reaction send r payload depth sid e
          ≡ cascade send r payload depth sid fires after
    unfolding fire_one_reaction ◌>>=◌
    fire-steps fires e after h = rw h refl

    fire-IsReaction :
        (guard : Option String) (e : Engine p)
        → r.guard ≡ guard
        → IsReaction r payload sid sends guard e (fire_one_reaction send r payload depth sid e)
    fire-IsReaction none e same =
        let unguarded =
          ap (λ g. evaluate_reaction_guard r payload sid g e) same ∙ evaluate-none e in
        subst (IsSent r payload sid (sends e)) (sym (fire-steps true e e unguarded))
          (cascade-IsSent e)
    fire-IsReaction (some guard) e same =
        let judged = eval_guard p guard (context r payload sid none e) in
        let after = noted r payload sid guard (guard_result_text judged) e in
        let evaluated =
          ap (λ g. evaluate_reaction_guard r payload sid g e) same ∙ evaluate-judged guard e in
        subst (IsJudged r payload sid sends guard judged e)
          (sym (fire-steps (passes judged) e after evaluated)) (cascade-IsJudged guard judged e)

    -- A reaction whose guard is false, or cannot be evaluated, succeeds and notes this in the trace;
    -- it changes nothing else, and does not send its event. With a guard that is true, noted r payload sid first,
    -- or with none, it sends the event. Where this fails, its own error is returned, after the
    -- compensation, whatever that does; otherwise the reaction is done.
    pub fire_one_reaction-outcome :
        (e : Engine p)
        → IsReaction r payload sid sends r.guard e (fire_one_reaction send r payload depth sid e)
    fire_one_reaction-outcome e = fire-IsReaction r.guard e refl
