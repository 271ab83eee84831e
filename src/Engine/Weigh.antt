-- ===== src/Engine/Weigh.antt =====
-- No reaction is lost or doubled: what fires and what still waits at the end is what was matched.
use sig_topo.Base.{
  ℕ, zero, suc, ◌+◌, String, ◌≡◌, Bool, not, Option, none, some, List, [], ◌∷◌, ◌++◌, HashMap,
  lookup, filter, arith, Bool-cases, inl, inr,
}
use sig_topo.Schema.{ReactionDef}
use sig_topo.Engine.Dispatch.{Pending, is_unblocked, complete_group, after_fire, reached, count_of}
use sig_topo.Engine.Schedule.{schedule_from}

module _ {N : Type 0} where
  -- The sum of a weight of reactions: equal for every weight, two lists have the same items.
  abbrev pub weigh : (ReactionDef N → ℕ) → List (ReactionDef N) → ℕ
  weigh f [] = 0
  weigh f (r ∷ rs) = f r + weigh f rs

  weigh-append :
      (f : ReactionDef N → ℕ) (xs ys : List (ReactionDef N))
      → weigh f (xs ++ ys) ≡ weigh f xs + weigh f ys
  weigh-append f [] ys = omega arith
  weigh-append f (x ∷ xs) ys = omega (arith, weigh-append f xs ys)

  pub weigh-filter :
      (f : ReactionDef N → ℕ) (test : ReactionDef N → Bool) (xs : List (ReactionDef N))
      → weigh f (filter test xs) + weigh f (filter (λ x. not (test x)) xs) ≡ weigh f xs
  weigh-filter f test [] = omega arith
  weigh-filter f test (x ∷ xs) = elim (Bool-cases (test x)) [
    | inl t ↦ rw t (omega (arith, weigh-filter f test xs))
    | inr o ↦ rw o (omega (arith, weigh-filter f test xs))
  ]

  after_weigh :
      (f : ReactionDef N → ℕ) (totals : HashMap ℕ) (group : Option String) (d : Pending N)
      → weigh f (after_fire totals group d).0 + weigh f (after_fire totals group d).1.waiting
        ≡ weigh f d.waiting
  unfolding after_fire complete_group
  after_weigh f totals none d = omega arith
  after_weigh f totals (some h) d =
      elim (Bool-cases (reached (lookup h totals) (count_of h d.group_done_count + 1))) [
        | inl full ↦ rw full (weigh-filter f (is_unblocked (h ∷ d.groups_done)) d.waiting)
        | inr open_group ↦ rw open_group (omega arith)
      ]

  -- What still waits when the loop ends.
  unfoldable pub left_from : ℕ → HashMap ℕ → List (ReactionDef N) → Pending N → List (ReactionDef N)
  left_from fuel totals [] d = d.waiting
  left_from zero totals (r ∷ ready) d = (r ∷ ready) ++ d.waiting
  left_from (suc fuel) totals (r ∷ ready) d =
      let next = after_fire totals r.join_group d in left_from fuel totals (ready ++ next.0) next.1

  pub weigh-schedule_from :
      (f : ReactionDef N → ℕ) (n : ℕ) (totals : HashMap ℕ) (ready : List (ReactionDef N))
      (d : Pending N)
      → weigh f (schedule_from n totals ready d) + weigh f (left_from n totals ready d)
        ≡ weigh f ready + weigh f d.waiting
  unfolding schedule_from left_from
  weigh-schedule_from f zero totals [] d = omega arith
  weigh-schedule_from f (suc n) totals [] d = omega arith
  weigh-schedule_from f zero totals (r ∷ ready) d =
      omega (arith, weigh-append f (r ∷ ready) d.waiting)
  weigh-schedule_from f (suc n) totals (r ∷ ready) d =
      let next = after_fire totals r.join_group d in
      omega (
        arith,
        weigh-schedule_from f n totals (ready ++ next.0) next.1,
        weigh-append f ready next.0,
        after_weigh f totals r.join_group d,
      )
