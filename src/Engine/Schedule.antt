-- ===== src/Engine/Schedule.antt =====
-- The order in which a dispatch fires is a function of the reactions alone.
use sig_topo.Base.{
  ℕ, zero, suc, ◌≤◌, ◌≡◌, refl, ap, ◌∙◌, true, not, List, [], ◌∷◌, ◌++◌, HashMap, length, filter,
  arith, All, append-nil,
}
use sig_topo.Json.{Platform}
use sig_topo.Schema.{ReactionDef}
use sig_topo.Engine.State.{Act, pure, ◌>>◌}
use sig_topo.Engine.Dispatch.{
  Pending, is_empty, after_fire, group_totals, dispatch_loop, dispatch_reactions,
}
use sig_topo.Engine.Queue.{after_fire_lengths}

empty_of_length : {A : Type 0} (xs : List A) → length xs ≡ 0 → xs ≡ []
empty_of_length [] h = refl
empty_of_length (x ∷ xs) h = absurd (omega arith)

-- A plain loop: `for r in reactions { fire(r)?; }`
unfoldable pub for_each :
    {p : Platform} {A : Type 0} → (A → Act p (Unit {0})) → List A → Act p (Unit {0})
for_each fire [] = pure tt
for_each fire (r ∷ rs) = fire r >> for_each fire rs

module _ {N : Type 0} where
  -- The reactions in the order in which they fire, as long as none fails.
  unfoldable pub schedule_from :
      ℕ → HashMap ℕ → List (ReactionDef N) → Pending N → List (ReactionDef N)
  schedule_from fuel totals [] d = []
  schedule_from zero totals (r ∷ ready) d = []
  schedule_from (suc fuel) totals (r ∷ ready) d =
      let next = after_fire totals r.join_group d in
      r ∷ schedule_from fuel totals (ready ++ next.0) next.1

  unfoldable pub schedule : List (ReactionDef N) → List (ReactionDef N)
  unfolding schedule_from
  schedule matched =
      schedule_from (length matched) (group_totals matched [])
        (filter (λ r. is_empty r.requires) matched)
        (record {
          waiting = filter (λ r. not (is_empty r.requires)) matched;
          group_done_count = [];
          groups_done = [];
        })

  dispatch_loop-schedule :
      {p : Platform} (fire : ReactionDef N → Act p (Unit {0})) (totals : HashMap ℕ) (n : ℕ)
      (ready : List (ReactionDef N)) (d : Pending N)
      → dispatch_loop n fire totals ready d ≡ for_each fire (schedule_from n totals ready d)
  unfolding dispatch_loop schedule_from for_each
  dispatch_loop-schedule fire totals zero [] d = refl
  dispatch_loop-schedule fire totals (suc n) [] d = refl
  dispatch_loop-schedule fire totals zero (r ∷ ready) d = refl
  dispatch_loop-schedule {p} fire totals (suc n) (r ∷ ready) d =
      ap (λ (k : Act p (Unit {0})). fire r >> k) (dispatch_loop-schedule fire totals n _ _)

  -- Whatever firing does, a dispatch is the plain loop over the schedule, which depends on the
  -- matched reactions alone: the first failure ends both.
  pub dispatch_reactions-schedule :
      {p : Platform} (fire : ReactionDef N → Act p (Unit {0})) (matched : List (ReactionDef N))
      → dispatch_reactions fire matched ≡ for_each fire (schedule matched)
  unfolding dispatch_reactions schedule
  dispatch_reactions-schedule fire matched = dispatch_loop-schedule fire _ _ _ _

  schedule_from_serial :
      (totals : HashMap ℕ) (n : ℕ) (ready : List (ReactionDef N)) (d : Pending N)
      → length d.waiting ≡ 0
      → length ready ≤ n
      → schedule_from n totals ready d ≡ ready
  unfolding schedule_from
  schedule_from_serial totals zero [] d h k = refl
  schedule_from_serial totals (suc n) [] d h k = refl
  schedule_from_serial totals zero (r ∷ ready) d h k = absurd (omega arith)
  schedule_from_serial totals (suc n) (r ∷ ready) d h k =
      let next = after_fire totals r.join_group d in
      let sizes = after_fire_lengths totals r.join_group d in
      let rest : ready ++ next.0 ≡ ready =
        ap (λ (l : List (ReactionDef N)). ready ++ l) (empty_of_length next.0 (omega arith))
        ∙ append-nil ready in
      ap (λ (l : List (ReactionDef N)). r ∷ l)
        (ap (λ (l : List (ReactionDef N)). schedule_from n totals l next.1) rest
          ∙ schedule_from_serial totals n ready next.1 (omega arith) (omega arith))

  All-ready :
      (matched : List (ReactionDef N))
      → All (λ r. r.requires ≡ []) matched
      → (filter (λ r. is_empty r.requires) matched ≡ matched)
        × (length (filter (λ (r : ReactionDef N). not (is_empty r.requires)) matched) ≡ 0)
  All-ready [] h = (refl, refl)
  All-ready (r ∷ rs) h =
      let rest = All-ready rs h.1 in
      let none_required : is_empty r.requires ≡ true = ap is_empty h.0 in
      (rw none_required (ap (λ (l : List (ReactionDef N)). r ∷ l) rest.0), rw none_required rest.1)

  -- Where no matched reaction has `requires`, they fire in the order of the topology, whatever fork
  -- groups they belong to: the dispatch is the plain loop over them.
  pub dispatch_reactions-serial :
      {p : Platform} (fire : ReactionDef N → Act p (Unit {0})) (matched : List (ReactionDef N))
      → All (λ r. r.requires ≡ []) matched
      → dispatch_reactions fire matched ≡ for_each fire matched
  unfolding schedule
  dispatch_reactions-serial fire matched h =
      let parts = All-ready matched h in
      dispatch_reactions-schedule fire matched
      ∙ ap (for_each fire) (
          rw (parts.0) (
            schedule_from_serial (group_totals matched []) (length matched) matched _ parts.1
              (omega arith)))
