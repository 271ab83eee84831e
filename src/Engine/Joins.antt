-- ===== src/Engine/Joins.antt =====
-- A reaction with `requires` fires after every member of the groups that it names.
use sig_topo.Base.{
  ℕ, ◌+◌, String, ◌≡◌, refl, Bool, true, not, Option, none, some, List, [], ◌∷◌, ◌++◌, HashMap,
  lookup, lookup-insert, filter, all, arith, Bool-cases, ◌⊎◌, inl, inr, All, contains,
  if◌then◌else◌, ◌==◌, eq_iff,
}
use sig_topo.Schema.{ReactionDef}
use sig_topo.Engine.Dispatch.{
  Pending, is_unblocked, complete_group, after_fire, add_group, group_totals, reached, count_of,
}

-- One for a member of the group.
abbrev pub in_group : String → Option String → ℕ
in_group g none = 0
in_group g (some h) = if h == g then 1 else 0

module _ {N : Type 0} where
  -- How many of the reactions are in the group.
  abbrev pub members : String → List (ReactionDef N) → ℕ
  members g [] = 0
  members g (r ∷ rs) = in_group g r.join_group + members g rs

  pub members-append :
      (g : String) (xs ys : List (ReactionDef N))
      → members g (xs ++ ys) ≡ members g xs + members g ys
  members-append g [] ys = omega arith
  members-append g (x ∷ xs) ys = omega (arith, members-append g xs ys)

  pub members-filter :
      (g : String) (test : ReactionDef N → Bool) (xs : List (ReactionDef N))
      → members g (filter test xs) + members g (filter (λ x. not (test x)) xs) ≡ members g xs
  members-filter g test [] = omega arith
  members-filter g test (x ∷ xs) = elim (Bool-cases (test x)) [
    | inl t ↦ rw t (omega (arith, members-filter g test xs))
    | inr f ↦ rw f (omega (arith, members-filter g test xs))
  ]

count_of-add_group :
    (g : String) (group : Option String) (m : HashMap ℕ)
    → count_of g (add_group group m) ≡ count_of g m + in_group g group
unfolding add_group
count_of-add_group g none m = omega arith
count_of-add_group g (some h) m = ground (arith, lookup-insert h g (count_of h m + 1) m, eq_iff h g)

unblocked_mono :
    (g : String) (groups reqs : List String)
    → all (λ q. contains q groups) reqs ≡ true
    → all (λ q. contains q (g ∷ groups)) reqs ≡ true
unblocked_mono g groups [] h = refl
unblocked_mono g groups (q ∷ reqs) h = ground (arith, h, unblocked_mono g groups reqs)

module _ {N : Type 0} where
  pub count_of-group_totals :
      (g : String) (rs : List (ReactionDef N)) (m : HashMap ℕ)
      → count_of g (group_totals rs m) ≡ count_of g m + members g rs
  unfolding group_totals
  count_of-group_totals g [] m = omega arith
  count_of-group_totals g (r ∷ rs) m = omega (
    arith,
    count_of-group_totals g rs (add_group r.join_group m),
    count_of-add_group g r.join_group m,
  )

  -- What one firing does to each part of the state, by its group.
  module _ (g : String) (totals : HashMap ℕ) where
    pub after_counts :
        (group : Option String) (d : Pending N)
        → count_of g (after_fire totals group d).1.group_done_count
          ≡ count_of g d.group_done_count + in_group g group
    unfolding after_fire complete_group add_group
    after_counts none d = omega arith
    after_counts (some h) d =
        let added = count_of-add_group g (some h) d.group_done_count in
        elim (Bool-cases (reached (lookup h totals) (count_of h d.group_done_count + 1))) [
          | inl full ↦ rw full added
          | inr open_group ↦ rw open_group added
        ]

    pub after_members :
        (group : Option String) (d : Pending N)
        → members g (after_fire totals group d).0 + members g (after_fire totals group d).1.waiting
          ≡ members g d.waiting
    unfolding after_fire complete_group
    after_members none d = omega arith
    after_members (some h) d =
        elim (Bool-cases (reached (lookup h totals) (count_of h d.group_done_count + 1))) [
          | inl full ↦ rw full (members-filter g (is_unblocked (h ∷ d.groups_done)) d.waiting)
          | inr open_group ↦ rw open_group (omega arith)
        ]

    pub after_done :
        (group : Option String) (d : Pending N)
        → contains g (after_fire totals group d).1.groups_done ≡ true
        → (contains g d.groups_done ≡ true)
          ⊎ (count_of g totals ≡ count_of g d.group_done_count + in_group g group)
    unfolding after_fire complete_group
    after_done none d h = inl h
    after_done (some k) d h = ground (arith, h, eq_iff k g)

  abbrev pub AllUnblocked : List String → List (ReactionDef N) → Type 0
  AllUnblocked groups = All (λ r. is_unblocked groups r ≡ true)

  AllUnblocked-filter :
      (groups : List String) (xs : List (ReactionDef N))
      → AllUnblocked groups (filter (is_unblocked groups) xs)
  AllUnblocked-filter groups [] = tt
  AllUnblocked-filter groups (x ∷ xs) = elim (Bool-cases (is_unblocked groups x)) [
    | inl t ↦ rw t (t, AllUnblocked-filter groups xs)
    | inr f ↦ rw f (AllUnblocked-filter groups xs)
  ]

  AllUnblocked-append :
      (groups : List String) (xs ys : List (ReactionDef N))
      → AllUnblocked groups xs
      → AllUnblocked groups ys
      → AllUnblocked groups (xs ++ ys)
  AllUnblocked-append groups [] ys h k = k
  AllUnblocked-append groups (x ∷ xs) ys h k = (h.0, AllUnblocked-append groups xs ys h.1 k)

  AllUnblocked-cons :
      (g : String) (groups : List String) (xs : List (ReactionDef N))
      → AllUnblocked groups xs
      → AllUnblocked (g ∷ groups) xs
  AllUnblocked-cons g groups [] h = tt
  AllUnblocked-cons g groups (x ∷ xs) h =
      (unblocked_mono g groups x.requires h.0, AllUnblocked-cons g groups xs h.1)

  pub after_unblocked :
      (totals : HashMap ℕ) (group : Option String) (ready : List (ReactionDef N)) (d : Pending N)
      → AllUnblocked d.groups_done ready
      → AllUnblocked
          (after_fire totals group d).1.groups_done
          (ready ++ (after_fire totals group d).0)
  unfolding after_fire complete_group
  after_unblocked totals none ready d h = AllUnblocked-append d.groups_done ready [] h tt
  after_unblocked totals (some g) ready d h =
      elim (Bool-cases (reached (lookup g totals) (count_of g d.group_done_count + 1))) [
        | inl full ↦
            let groups = g ∷ d.groups_done in
            rw full (
              AllUnblocked-append groups ready _ (AllUnblocked-cons g d.groups_done ready h)
                (AllUnblocked-filter groups d.waiting))
        | inr open_group ↦ rw open_group (AllUnblocked-append d.groups_done ready [] h tt)
      ]
