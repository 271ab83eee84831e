-- ===== src/Engine/Dispatch.antt =====
-- `dispatch_reactions`: the ready queue, the waiting reactions and the fork groups.
use sig_topo.Base.{
  ℕ, zero, suc, ◌+◌, String, Bool, true, false, not, Option, none, some, List, [], ◌∷◌, ◌++◌,
  HashMap, lookup, insert, length, filter, all, contains, nat_eq, if◌then◌else◌,
}
use sig_topo.Json.{Platform}
use sig_topo.Schema.{ReactionDef}
use sig_topo.Engine.State.{Act, pure, ◌>>=◌, ◌>>◌}

abbrev pub count_of : String → HashMap ℕ → ℕ
count_of g m = elim (lookup g m) [ none ↦ 0 | some n ↦ n ]

abbrev pub reached : Option ℕ → ℕ → Bool
reached none done = false
reached (some total) done = nat_eq total done

abbrev pub is_empty {ℓ} : {A : Type ℓ} → List A → Bool
is_empty [] = true
is_empty (x ∷ xs) = false

-- `*map.entry(g).or_insert(0) += 1` for a reaction's group
unfoldable pub add_group : Option String → HashMap ℕ → HashMap ℕ
add_group none m = m
add_group (some g) m = insert g (count_of g m + 1) m

-- The state of the loop apart from the ready queue.
pub record Pending (N : Type 0) : Type 0 where
  pub waiting : List (ReactionDef N)
  pub group_done_count : HashMap ℕ
  pub groups_done : List String

module _ {N : Type 0} where
  -- How many matched reactions belong to each group.
  unfoldable pub group_totals : List (ReactionDef N) → HashMap ℕ → HashMap ℕ
  unfolding add_group
  group_totals [] m = m
  group_totals (r ∷ rs) m = group_totals rs (add_group r.join_group m)

  abbrev pub is_unblocked : List String → ReactionDef N → Bool
  is_unblocked groups_done w = all (λ req. contains req groups_done) w.requires

  -- A group has completed: the waiting reactions that it unblocks, in order, and the rest.
  unfoldable pub complete_group : String → Pending N → List (ReactionDef N) × Pending N
  complete_group g d =
      let groups_done = g ∷ d.groups_done in
      (
        filter (is_unblocked groups_done) d.waiting,
        record d {
          waiting = filter (λ w. not (is_unblocked groups_done w)) d.waiting;
          groups_done = groups_done;
        },
      )

  -- After a reaction of this group has fired: what becomes ready, and what still waits.
  unfoldable pub after_fire :
      HashMap ℕ → Option String → Pending N → List (ReactionDef N) × Pending N
  unfolding complete_group
  after_fire totals none d = ([], d)
  after_fire totals (some g) d =
      let done = count_of g d.group_done_count + 1 in
      let d' = record d { group_done_count = insert g done d.group_done_count } in
      if reached (lookup g totals) done then complete_group g d' else ([], d')

  module _ {p : Platform} where
    -- The queue and the waiting list lose a reaction in each round.
    unfoldable pub dispatch_loop :
        ℕ
        → (ReactionDef N → Act p (Unit {0}))
        → HashMap ℕ
        → List (ReactionDef N)
        → Pending N
        → Act p (Unit {0})
    unfolding ◌>>=◌ after_fire
    dispatch_loop fuel fire totals [] d = pure tt
    dispatch_loop zero fire totals (r ∷ ready) d = pure tt
    dispatch_loop (suc fuel) fire totals (r ∷ ready) d = do
      fire r
      let unblocked = after_fire totals r.join_group d
      dispatch_loop fuel fire totals (ready ++ unblocked.0) unblocked.1

    unfoldable pub dispatch_reactions :
        (ReactionDef N → Act p (Unit {0})) → List (ReactionDef N) → Act p (Unit {0})
    unfolding dispatch_loop group_totals
    dispatch_reactions fire matched =
        dispatch_loop (length matched) fire (group_totals matched [])
          (filter (λ r. is_empty r.requires) matched)
          (record {
            waiting = filter (λ r. not (is_empty r.requires)) matched;
            group_done_count = [];
            groups_done = [];
          })
