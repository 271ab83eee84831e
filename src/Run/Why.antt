-- ===== src/Run/Why.antt =====
-- The report of `why`: which events of the trace it tells of, its lines, and its counts.
use Prim.Native.String.{◌++◌}
use mathlib.Core.List
use sig_topo.Base.{
  ℕ, ◌+◌, String, true, false, ◌≡◌, ◌≢◌, refl, sym, ap, ◌∙◌, inl, inr, List, [], ◌∷◌, filter,
  length, append_assoc, append-nil, arith, Bool-cases, ◌==◌, eq_iff,
}
use sig_topo.Base.Int.{pos}
use sig_topo.Json.{Platform}
use sig_topo.Trace.{
  TraceEvent, event_received, action_started, action_succeeded, action_failed, state_changed,
  rollbacked, reaction_guard_evaluated, reaction_compensated,
}
use sig_topo.Engine.Query.{ReactionKey}
use sig_topo.Run.Format.{
  join_lines, is_asked, why_loop, why_header, why_summary, why_text, format_why,
}

-- The event is an evaluation of the guard of this reaction.
abbrev pub Concerns : ReactionKey → TraceEvent → Type 0
Concerns key (reaction_guard_evaluated _ from_signal from_state to_signal event _ _ _) =
    (from_signal ≡ key.from_signal)
    × (from_state ≡ key.from_state)
    × (to_signal ≡ key.to_signal)
    × (event ≡ key.event)
Concerns key _ = ⊥

module _ (p : Platform) (key : ReactionKey) where
  abbrev line_of : String → String → ℕ → String
  line_of guard result t =
      "[" ++ p.show_i64 (pos t) ++ "] guard=`" ++ guard ++ "` result=" ++ result

  -- The lines on the evaluations that concern the reaction, in order, with the numbers of those that
  -- held and of those that did not.
  pub data Tells : List TraceEvent → List String → ℕ → ℕ → Type 0 where
    at_end : Tells [] [] 0 0
    fired :
        {traces : List TraceEvent} {lines : List String} {held failed : ℕ}
        (signal a b c d guard result : String) (t : ℕ)
        → Concerns key (reaction_guard_evaluated signal a b c d guard result t)
        → result ≡ "true"
        → Tells traces lines held failed
        → Tells
            (reaction_guard_evaluated signal a b c d guard result t ∷ traces)
            (line_of guard result t ∷ lines)
            (held + 1)
            failed
    skipped :
        {traces : List TraceEvent} {lines : List String} {held failed : ℕ}
        (signal a b c d guard result : String) (t : ℕ)
        → Concerns key (reaction_guard_evaluated signal a b c d guard result t)
        → result ≢ "true"
        → Tells traces lines held failed
        → Tells
            (reaction_guard_evaluated signal a b c d guard result t ∷ traces)
            (line_of guard result t ∷ lines)
            held
            (failed + 1)
    other :
        {traces : List TraceEvent} {lines : List String} {held failed : ℕ} (e : TraceEvent)
        → ¬ Concerns key e
        → Tells traces lines held failed
        → Tells (e ∷ traces) lines held failed

  -- The text: that there is no evaluation, or a header, the lines, and the counts.
  abbrev pub why_report : List String → ℕ → ℕ → String
  why_report [] held failed =
      "No guard evaluation found for that reaction (from_state may not have been reached yet)."
  why_report (line ∷ lines) held failed = join_lines (
      ("Guard evaluations for reaction "
        ++ (key.from_signal ++ "." ++ key.from_state ++ " -> " ++ key.to_signal ++ "." ++ key.event)
        ++ ":")
      ∷ List.◌++◌ (line ∷ lines) (
          (p.show_i64 (pos (length (line ∷ lines)))
            ++ " evaluation(s); "
            ++ p.show_i64 (pos held)
            ++ " fired, "
            ++ p.show_i64 (pos failed)
            ++ " skipped.")
          ∷ []))

  abbrev asked : List TraceEvent → List TraceEvent
  asked = filter (is_asked p key)

  -- What is told of a trace, and that the loop of `why` comes to it, from any counts and lines.
  abbrev IsTold : List TraceEvent → Type 0
  IsTold traces =
      (lines : List String) × (held : ℕ) × (failed : ℕ) × Tells traces lines held failed
      × (length (asked traces) ≡ length lines)
      × ((f s : ℕ) (before : List String)
          → why_loop p (asked traces) f s before ≡ (f + held, s + failed, List.◌++◌ before lines))

  counts :
      {f f' s s' : ℕ} {lines lines' : List String}
      → f ≡ f'
      → s ≡ s'
      → lines ≡ lines'
      → ◌≡◌ {A = ℕ × ℕ × List String} (f, s, lines) (f', s', lines')
  counts h k l = cc (h, k, l)

  passed_over :
      (e : TraceEvent) (traces : List TraceEvent)
      → is_asked p key e ≡ false
      → ¬ Concerns key e
      → IsTold traces
      → IsTold (e ∷ traces)
  passed_over e traces h away (lines, held, failed, tells, same, loop) =
      (lines, held, failed, other e away tells, rw h same, λ f s before. rw h (loop f s before))

  asked_first :
      (e : TraceEvent) (traces : List TraceEvent)
      → is_asked p key e ≡ true
      → asked (e ∷ traces) ≡ e ∷ asked traces
  asked_first e traces h = rw h refl

  loop-fired :
      (signal a b c d guard result : String) (t : ℕ) (rest : List TraceEvent) (f s : ℕ)
      (before : List String)
      → (result == "true") ≡ true
      → why_loop p (reaction_guard_evaluated signal a b c d guard result t ∷ rest) f s before
        ≡ why_loop p rest (f + 1) s (List.◌++◌ before (line_of guard result t ∷ []))
  loop-fired signal a b c d guard result t rest f s before h = rw h refl

  loop-skipped :
      (signal a b c d guard result : String) (t : ℕ) (rest : List TraceEvent) (f s : ℕ)
      (before : List String)
      → (result == "true") ≡ false
      → why_loop p (reaction_guard_evaluated signal a b c d guard result t ∷ rest) f s before
        ≡ why_loop p rest f (s + 1) (List.◌++◌ before (line_of guard result t ∷ []))
  loop-skipped signal a b c d guard result t rest f s before h = rw h refl

  evaluated :
      (signal a b c d guard result : String) (t : ℕ) (traces : List TraceEvent)
      → IsTold traces
      → IsTold (reaction_guard_evaluated signal a b c d guard result t ∷ traces)
  evaluated signal a b c d guard result t traces told =
      let e = reaction_guard_evaluated signal a b c d guard result t in
      elim (Bool-cases (is_asked p key e)) [
        | inr h ↦
            passed_over e traces h
              (λ (same : Concerns key e). ground (
                arith,
                h,
                same,
                eq_iff a key.from_signal,
                eq_iff b key.from_state,
                eq_iff c key.to_signal,
                eq_iff d key.event,
              ))
              told
        | inl h ↦
            let (lines, held, failed, tells, same, loop) = told in
            let concerns : Concerns key e = ground (
              arith,
              h,
              eq_iff a key.from_signal,
              eq_iff b key.from_state,
              eq_iff c key.to_signal,
              eq_iff d key.event,
            ) in
            let line = line_of guard result t in
            elim (Bool-cases (result == "true")) [
              | inl holds ↦ (
                line ∷ lines,
                held + 1,
                failed,
                fired signal a b c d guard result t concerns ((eq_iff result "true").0 holds) tells,
                rw h (ap (λ n. ℕ.suc n) same),
                λ f s before.
                    ap (λ l. why_loop p l f s before) (asked_first e traces h)
                    ∙ loop-fired signal a b c d guard result t (asked traces) f s before holds
                    ∙ loop (f + 1) s (List.◌++◌ before (line ∷ []))
                    ∙ counts (omega arith) refl (append_assoc before (line ∷ []) lines),
              )
              | inr fails ↦ (
                line ∷ lines,
                held,
                failed + 1,
                skipped signal a b c d guard result t concerns
                    (λ true_result. ground (arith, fails, true_result, eq_iff result "true")) tells,
                rw h (ap (λ n. ℕ.suc n) same),
                λ f s before.
                    ap (λ l. why_loop p l f s before) (asked_first e traces h)
                    ∙ loop-skipped signal a b c d guard result t (asked traces) f s before fails
                    ∙ loop f (s + 1) (List.◌++◌ before (line ∷ []))
                    ∙ counts refl (omega arith) (append_assoc before (line ∷ []) lines),
              )
            ]
      ]

  all-IsTold : (traces : List TraceEvent) → IsTold traces
  all-IsTold [] = (
    [],
    0,
    0,
    at_end,
    refl,
    λ f s before. counts (omega arith) (omega arith) (sym (append-nil before)),
  )
  all-IsTold (reaction_guard_evaluated signal a b c d guard result t ∷ traces) =
      evaluated signal a b c d guard result t traces (all-IsTold traces)
  all-IsTold (event_received a b c d ∷ traces) =
      passed_over _ traces refl (λ z. z) (all-IsTold traces)
  all-IsTold (action_started a b c ∷ traces) =
      passed_over _ traces refl (λ z. z) (all-IsTold traces)
  all-IsTold (action_succeeded a b c ∷ traces) =
      passed_over _ traces refl (λ z. z) (all-IsTold traces)
  all-IsTold (action_failed a b c d ∷ traces) =
      passed_over _ traces refl (λ z. z) (all-IsTold traces)
  all-IsTold (state_changed a b c d ∷ traces) =
      passed_over _ traces refl (λ z. z) (all-IsTold traces)
  all-IsTold (rollbacked a b c d ∷ traces) = passed_over _ traces refl (λ z. z) (all-IsTold traces)
  all-IsTold (reaction_compensated a b c d f g h i ∷ traces) =
      passed_over _ traces refl (λ z. z) (all-IsTold traces)

  why_text-report :
      (matched : List TraceEvent) (lines : List String) (held failed : ℕ)
      → length matched ≡ length lines
      → ((f s : ℕ) (before : List String)
          → why_loop p matched f s before ≡ (f + held, s + failed, List.◌++◌ before lines))
      → why_text p key matched ≡ why_report lines held failed
  why_text-report [] [] held failed same loop = refl
  why_text-report [] (line ∷ lines) held failed same loop = absurd (omega (arith, same))
  why_text-report (e ∷ rest) [] held failed same loop = absurd (omega (arith, same))
  why_text-report (e ∷ rest) (line ∷ lines) held failed same loop =
      ap
        (λ (r : ℕ × ℕ × List String).
          let (f, s, told) = r in
          join_lines (List.◌++◌ told (why_summary p (length (e ∷ rest)) f s ∷ [])))
        (loop 0 0 (why_header p key ∷ []) ∙ counts (omega arith) (omega arith) refl)
      ∙ ap
          (λ n.
            join_lines
              (why_header p key ∷ List.◌++◌ (line ∷ lines) (why_summary p n held failed ∷ [])))
          same

  -- `why` tells of the events of the trace that evaluate the guard of the reaction with these four
  -- keys, in order, and of no other: a line for each, and how many there are, how many held, and how
  -- many did not; or that there is none.
  pub format_why-report :
      (traces : List TraceEvent)
      → (lines : List String) × (held : ℕ) × (failed : ℕ) × Tells traces lines held failed
        × (format_why p traces key ≡ why_report lines held failed)
  unfolding format_why
  format_why-report traces =
      let (lines, held, failed, tells, same, loop) = all-IsTold traces in
      (lines, held, failed, tells, why_text-report (asked traces) lines held failed same loop)
