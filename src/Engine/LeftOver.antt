-- ===== src/Engine/LeftOver.antt =====
-- The reactions that a dispatch leaves out: all others fire, and each of these waits for a group that
-- is never complete.
use sig_topo.Base.{
  ℕ, zero, suc, ◌+◌, ◌≤◌, String, ◌≡◌, refl, true, false, not, Option, none, some, List, [], ◌∷◌,
  ◌++◌, HashMap, lookup, length, length-append, filter, all, arith, Bool-cases, inl, inr, All,
  contains, ◌==◌, eq_iff, eq_refl, subst, sym, ◌⊎◌, append-nil, append_assoc,
}
use sig_topo.Schema.{ReactionDef}
use sig_topo.Engine.Dispatch.{Pending, is_unblocked, complete_group, after_fire, reached, count_of}
use sig_topo.Engine.Queue.{after_fire_lengths}
use sig_topo.Engine.Schedule.{schedule_from}
use sig_topo.Engine.Joins.{in_group, members, members-append}
use sig_topo.Engine.Weigh.{left_from}
use sig_topo.Engine.JoinOrder.{Inv, Inv-fire}

reached_count :
    (o : Option ℕ) (n : ℕ) → elim o [ none ↦ 0 | some c ↦ c ] ≡ n + 1 → reached o (n + 1) ≡ true
reached_count none n h = absurd (omega arith)
reached_count (some c) n h = ground (arith, h)

in_group_cases :
    (g : String) (group : Option String) → (in_group g group ≡ 0) ⊎ (in_group g group ≡ 1)
in_group_cases g none = inl refl
in_group_cases g (some h) = elim (Bool-cases (h == g)) [
  | inl same ↦ inr (rw same refl)
  | inr other ↦ inl (rw other refl)
]

blocked_by :
    (groups reqs : List String)
    → all (λ q. contains q groups) reqs ≡ false
    → (g : String) × (contains g reqs ≡ true) × (contains g groups ≡ false)
blocked_by groups [] h = absurd (cc h)
blocked_by groups (q ∷ reqs) h = elim (Bool-cases (contains q groups)) [
  | inr missing ↦ (q, rw eq_refl refl, missing)
  | inl present ↦
      let (g, required, missing) = blocked_by groups reqs (rw present at h) in
      (g, ground (arith, required), missing)
]

module _ {N : Type 0} where
  abbrev pub AllBlocked : List String → List (ReactionDef N) → Type 0
  AllBlocked groups = All (λ w. is_unblocked groups w ≡ false)

  AllBlocked-filter :
      (groups : List String) (ws : List (ReactionDef N))
      → AllBlocked groups (filter (λ w. not (is_unblocked groups w)) ws)
  AllBlocked-filter groups [] = tt
  AllBlocked-filter groups (w ∷ ws) = elim (Bool-cases (is_unblocked groups w)) [
    | inl t ↦ rw t (AllBlocked-filter groups ws)
    | inr f ↦ rw f (f, AllBlocked-filter groups ws)
  ]

  after_blocked :
      (totals : HashMap ℕ) (group : Option String) (d : Pending N)
      → AllBlocked d.groups_done d.waiting
      → AllBlocked (after_fire totals group d).1.groups_done (after_fire totals group d).1.waiting
  unfolding after_fire complete_group
  after_blocked totals none d h = h
  after_blocked totals (some g) d h =
      elim (Bool-cases (reached (lookup g totals) (count_of g d.group_done_count + 1))) [
        | inl full ↦ rw full (AllBlocked-filter (g ∷ d.groups_done) d.waiting)
        | inr open_group ↦ rw open_group h
      ]

  -- A group that is not done after a firing was not done before, and the firing did not complete it.
  after_undone :
      (g : String) (totals : HashMap ℕ) (group : Option String) (d : Pending N)
      → contains g (after_fire totals group d).1.groups_done ≡ false
      → contains g d.groups_done ≡ false
  unfolding after_fire complete_group
  after_undone g totals none d h = h
  after_undone g totals (some k) d h = ground (arith, h)

  after_incomplete :
      (g : String) (totals : HashMap ℕ) (group : Option String) (d : Pending N)
      → contains g (after_fire totals group d).1.groups_done ≡ false
      → in_group g group ≡ 1
      → count_of g totals ≡ count_of g d.group_done_count + 1
      → ⊥
  unfolding after_fire complete_group
  after_incomplete g totals none d h one full = omega arith
  after_incomplete g totals (some k) d h one full =
      let same : k ≡ g = ground (arith, one, eq_iff k g) in
      let full' =
        subst (λ q. count_of q totals ≡ count_of q d.group_done_count + 1) (sym same) full in
      let done = reached_count (lookup k totals) (count_of k d.group_done_count) full' in
      let there = (eq_iff k g).1 same in absurd (ground (arith, rw done at h, there))

  -- The counters, and: a group that is not done has not all of its members fired, unless it has none.
  pub record LeftInv (matched fired ready : List (ReactionDef N)) (d : Pending N) : Type 0 where
    pub inv : Inv matched fired ready d
    pub undone :
        (g : String)
        → contains g d.groups_done ≡ false
        → members g fired ≡ members g matched
        → members g fired ≡ 0
    pub blocked : AllBlocked d.groups_done d.waiting

  -- Each requires a group that has no matched member, or one that did not fire.
  abbrev pub IsLeft : List (ReactionDef N) → List (ReactionDef N) → ReactionDef N → Type 0
  IsLeft matched fired w =
      (g : String) × (contains g w.requires ≡ true)
      × (members g fired ≡ members g matched → members g matched ≡ 0)

  each-IsLeft :
      (matched fired : List (ReactionDef N)) (groups : List String) (ws : List (ReactionDef N))
      → ((g : String)
          → contains g groups ≡ false
          → members g fired ≡ members g matched
          → members g fired ≡ 0)
      → AllBlocked groups ws
      → All (IsLeft matched fired) ws
  each-IsLeft matched fired groups [] undone h = tt
  each-IsLeft matched fired groups (w ∷ ws) undone h =
      let (g, required, missing) = blocked_by groups w.requires h.0 in
      (
        (g, required, λ all_fired. let none_fired = undone g missing all_fired in omega arith),
        each-IsLeft matched fired groups ws undone h.1,
      )

  module _ (matched : List (ReactionDef N)) (totals : HashMap ℕ)
      (total : (g : String) → count_of g totals ≡ members g matched) where
    LeftInv-fire :
        (fired ready : List (ReactionDef N)) (r : ReactionDef N) (d : Pending N)
        → LeftInv matched fired (r ∷ ready) d
        → let next = after_fire totals r.join_group d in
          LeftInv matched (fired ++ r ∷ []) (ready ++ next.0) next.1
    LeftInv-fire fired ready r d v = record {
      inv = Inv-fire matched totals total fired ready r d v.inv;
      undone = λ g missing all_fired. elim (in_group_cases g r.join_group) [
        | inl other ↦
            let before = v.undone g (after_undone g totals r.join_group d missing) in
            let more = members-append g fired (r ∷ []) in
            let none_before = before (omega arith) in omega arith
        | inr member ↦
            let more = members-append g fired (r ∷ []) in
            let counted = v.inv.counts g in
            let of_all = total g in
            absurd (after_incomplete g totals r.join_group d missing member (omega arith))
      ];
      blocked = after_blocked totals r.join_group d v.blocked;
    }

    pub left_from-IsLeft :
        (n : ℕ) (fired ready : List (ReactionDef N)) (d : Pending N)
        → length ready + length d.waiting ≤ n
        → LeftInv matched fired ready d
        → All
            (IsLeft matched (fired ++ schedule_from n totals ready d))
            (left_from n totals ready d)
    unfolding schedule_from left_from
    left_from-IsLeft zero fired [] d h v =
        rw append-nil (each-IsLeft matched fired d.groups_done d.waiting v.undone v.blocked)
    left_from-IsLeft (suc n) fired [] d h v =
        rw append-nil (each-IsLeft matched fired d.groups_done d.waiting v.undone v.blocked)
    left_from-IsLeft zero fired (r ∷ ready) d h v = absurd (omega arith)
    left_from-IsLeft (suc n) fired (r ∷ ready) d h v =
        let next = after_fire totals r.join_group d in
        let sizes = after_fire_lengths totals r.join_group d in
        let longer = length-append ready next.0 in
        let rest =
          left_from-IsLeft n (fired ++ r ∷ []) (ready ++ next.0) next.1 (omega arith)
            (LeftInv-fire fired ready r d v) in
        subst (λ l. All (IsLeft matched l) (left_from n totals (ready ++ next.0) next.1))
          (append_assoc fired (r ∷ []) (schedule_from n totals (ready ++ next.0) next.1)) rest
