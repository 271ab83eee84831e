-- ===== src/Engine/Complete.antt =====
-- What a dispatch fires, in which order, and what it leaves out.
use sig_topo.Base.{
  ℕ, ◌+◌, String, ◌≡◌, refl, false, not, List, [], ◌∷◌, length, filter, all, arith, Bool-cases, inl,
  inr, All, contains,
}
use sig_topo.Schema.{ReactionDef}
use sig_topo.Engine.Dispatch.{is_empty, group_totals, dispatch_reactions}
use sig_topo.Json.{Platform}
use sig_topo.Engine.State.{Act}
use sig_topo.Engine.Queue.{filter_lengths}
use sig_topo.Engine.Schedule.{schedule, for_each, dispatch_reactions-schedule}
use sig_topo.Engine.Weigh.{left_from, weigh-schedule_from, weigh, weigh-filter}
use sig_topo.Engine.JoinOrder.{InOrder, started, started-Inv, count_of-totals, schedule-InOrder}
use sig_topo.Engine.LeftOver.{AllBlocked, LeftInv, IsLeft, left_from-IsLeft}

nothing_done : (reqs : List String) → is_empty reqs ≡ false → all (λ q. contains q []) reqs ≡ false
nothing_done [] h = absurd (cc h)
nothing_done (q ∷ reqs) h = refl

module _ {N : Type 0} where
  all_blocked :
      (rs : List (ReactionDef N)) → AllBlocked [] (filter (λ r. not (is_empty r.requires)) rs)
  all_blocked [] = tt
  all_blocked (r ∷ rs) = elim (Bool-cases (is_empty r.requires)) [
    | inl none_required ↦ rw none_required (all_blocked rs)
    | inr some_required ↦ rw some_required (nothing_done r.requires some_required, all_blocked rs)
  ]

  unfoldable left_over : List (ReactionDef N) → List (ReactionDef N)
  left_over matched =
      left_from (length matched) (group_totals matched [])
        (filter (λ r. is_empty r.requires) matched) (started matched)

  left-LeftInv :
      (matched : List (ReactionDef N))
      → LeftInv matched [] (filter (λ r. is_empty r.requires) matched) (started matched)
  left-LeftInv matched = record {
    inv = started-Inv matched;
    undone = λ g missing all_fired. refl;
    blocked = all_blocked matched;
  }

  -- What a dispatch of the matched reactions fires, and what it leaves out.
  pub record Schedules (matched order left : List (ReactionDef N)) : Type 0 where
    pub in_order : InOrder matched [] order
    pub whole : (f : ReactionDef N → ℕ) → weigh f order + weigh f left ≡ weigh f matched
    pub blocked : All (IsLeft matched order) left

  -- A dispatch fires reactions in some order, and stops at the first failure. The order and what it
  -- leaves out are the same whatever firing does, and are together the matched reactions: none is
  -- lost and none fires twice. In the order a reaction that requires a group comes after every
  -- matched member of the group; each that is left out requires a group that has no matched member,
  -- or has one that is left out.
  pub dispatch_reactions-Schedules :
      {p : Platform} (fire : ReactionDef N → Act p (Unit {0})) (matched : List (ReactionDef N))
      → (order : List (ReactionDef N)) × (left : List (ReactionDef N)) × (dispatch_reactions fire
            matched
          ≡ for_each fire order)
        × Schedules matched order left
  unfolding schedule left_over
  dispatch_reactions-Schedules fire matched = (
    schedule matched,
    left_over matched,
    dispatch_reactions-schedule fire matched,
    record {
      in_order = schedule-InOrder matched;
      whole = λ f. omega (
        arith,
        weigh-schedule_from f (length matched) (group_totals matched [])
            (filter (λ r. is_empty r.requires) matched) (started matched),
        weigh-filter f (λ r. is_empty r.requires) matched,
      );
      blocked =
          left_from-IsLeft matched (group_totals matched []) (count_of-totals matched)
            (length matched) [] (filter (λ r. is_empty r.requires) matched) (started matched)
            (omega (arith, filter_lengths (λ (r : ReactionDef N). is_empty r.requires) matched))
            (left-LeftInv matched);
    },
  )
