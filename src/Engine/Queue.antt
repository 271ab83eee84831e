-- ===== src/Engine/Queue.antt =====
-- The dispatch of reactions: its rounds are enough, and with nothing to wait for it is a plain loop.
use sig_topo.Base.{
  ℕ, zero, suc, ◌+◌, ◌≤◌, String, ◌≡◌, refl, ap, Bool, not, Option, none, some, List, [], ◌∷◌, ◌++◌,
  HashMap, lookup, length, length-append, filter, arith, Bool-cases, inl, inr,
}
use sig_topo.Json.{Platform}
use sig_topo.Schema.{ReactionDef}
use sig_topo.Engine.State.{Act, ◌>>◌}
use sig_topo.Engine.Dispatch.{
  Pending, is_empty, is_unblocked, complete_group, after_fire, group_totals, dispatch_loop,
  dispatch_reactions, reached, count_of,
}

pub filter_lengths {ℓ} :
    {A : Type ℓ} (test : A → Bool) (xs : List A)
    → length (filter test xs) + length (filter (λ x. not (test x)) xs) ≡ length xs
filter_lengths test [] = omega arith
filter_lengths test (x ∷ xs) = ground (arith, filter_lengths test xs)

module _ {N : Type 0} where
  -- What becomes ready is no longer waiting.
  pub after_fire_lengths :
      (totals : HashMap ℕ) (group : Option String) (d : Pending N)
      → length (after_fire totals group d).0 + length (after_fire totals group d).1.waiting
        ≡ length d.waiting
  unfolding after_fire complete_group
  after_fire_lengths totals none d = omega arith
  after_fire_lengths totals (some g) d =
      elim (Bool-cases (reached (lookup g totals) (count_of g d.group_done_count + 1))) [
        | inl full ↦ rw full (filter_lengths (is_unblocked (g ∷ d.groups_done)) d.waiting)
        | inr open_group ↦ rw open_group (omega arith)
      ]

  module _ {p : Platform} (fire : ReactionDef N → Act p (Unit {0})) (totals : HashMap ℕ) where
    pub dispatch_loop_fuel :
        (n m : ℕ) (ready : List (ReactionDef N)) (d : Pending N)
        → length ready + length d.waiting ≤ n
        → length ready + length d.waiting ≤ m
        → dispatch_loop n fire totals ready d ≡ dispatch_loop m fire totals ready d
    unfolding dispatch_loop
    dispatch_loop_fuel zero zero [] d hn hm = refl
    dispatch_loop_fuel zero (suc m) [] d hn hm = refl
    dispatch_loop_fuel (suc n) zero [] d hn hm = refl
    dispatch_loop_fuel (suc n) (suc m) [] d hn hm = refl
    dispatch_loop_fuel zero m (r ∷ ready) d hn hm = absurd (omega arith)
    dispatch_loop_fuel (suc n) zero (r ∷ ready) d hn hm = absurd (omega arith)
    dispatch_loop_fuel (suc n) (suc m) (r ∷ ready) d hn hm =
        let next = after_fire totals r.join_group d in
        let sizes = after_fire_lengths totals r.join_group d in
        let total = length-append ready next.0 in
        ap (λ (k : Act p (Unit {0})). fire r >> k)
          (dispatch_loop_fuel n m (ready ++ next.0) next.1 (omega arith) (omega arith))

-- The rounds that `dispatch_reactions` hands out are enough: with any larger number the loop, from
-- the reactions without `requires`, with the others waiting, does the same.
pub dispatch_reactions-fuel :
    {N : Type 0} {p : Platform} (fire : ReactionDef N → Act p (Unit {0}))
    (matched : List (ReactionDef N)) (n : ℕ)
    → length matched ≤ n
    → dispatch_reactions fire matched
      ≡ dispatch_loop n fire
          (group_totals matched [])
          (filter (λ r. is_empty r.requires) matched)
          (record {
            waiting = filter (λ r. not (is_empty r.requires)) matched;
            group_done_count = [];
            groups_done = [];
          })
unfolding dispatch_reactions
dispatch_reactions-fuel {N} fire matched n h =
    let sizes = filter_lengths (λ (r : ReactionDef N). is_empty r.requires) matched in
    dispatch_loop_fuel fire (group_totals matched []) (length matched) n _ _ (omega arith)
      (omega arith)
