-- ===== src/Engine/JoinOrder.antt =====
-- The fork and join order of a dispatch.
use sig_topo.Base.{
  ℕ, zero, suc, ◌+◌, String, ◌≡◌, refl, ◌∙◌, true, not, List, [], ◌∷◌, ◌++◌, HashMap, length,
  filter, all, arith, inl, inr, contains, eq_iff, Bool-cases, lookup,
}
use sig_topo.Schema.{ReactionDef}
use sig_topo.Engine.Dispatch.{Pending, is_empty, after_fire, group_totals, count_of}
use sig_topo.Engine.Schedule.{schedule_from, schedule}
use sig_topo.Engine.Joins.{
  members, members-append, members-filter, count_of-group_totals, after_counts, after_members,
  after_done, AllUnblocked, after_unblocked,
}

required_done :
    (g : String) (groups reqs : List String)
    → all (λ q. contains q groups) reqs ≡ true
    → contains g reqs ≡ true
    → contains g groups ≡ true
required_done g groups [] h k = absurd (cc)
required_done g groups (q ∷ reqs) h k =
    ground (arith, h, k, eq_iff q g, required_done g groups reqs)

module _ {N : Type 0} where
  -- Each reaction in turn, after those before it: of every group that it requires, all matched
  -- members are among them.
  abbrev pub InOrder : List (ReactionDef N) → List (ReactionDef N) → List (ReactionDef N) → Type 0
  InOrder matched before [] = Unit
  InOrder matched before (r ∷ rest) =
      ((g : String) → contains g r.requires ≡ true → members g before ≡ members g matched)
      × InOrder matched (before ++ r ∷ []) rest

  -- The counters tell how many members have fired, no reaction is lost, and what is ready has all
  -- that it requires.
  pub record Inv (matched fired ready : List (ReactionDef N)) (d : Pending N) : Type 0 where
    pub counts : (g : String) → count_of g d.group_done_count ≡ members g fired
    pub whole :
        (g : String) → members g fired + (members g ready + members g d.waiting) ≡ members g matched
    pub complete :
        (g : String) → contains g d.groups_done ≡ true → members g fired ≡ members g matched
    pub unblocked : AllUnblocked d.groups_done ready

  module _ (matched : List (ReactionDef N)) (totals : HashMap ℕ)
      (total : (g : String) → count_of g totals ≡ members g matched) where
    pub Inv-fire :
        (fired ready : List (ReactionDef N)) (r : ReactionDef N) (d : Pending N)
        → Inv matched fired (r ∷ ready) d
        → let next = after_fire totals r.join_group d in
          Inv matched (fired ++ r ∷ []) (ready ++ next.0) next.1
    Inv-fire fired ready r d v =
        let next = after_fire totals r.join_group d in
        record {
          counts = λ g. omega (
            arith,
            after_counts g totals r.join_group d,
            v.counts g,
            members-append g fired (r ∷ []),
          );
          whole = λ g. omega (
            arith,
            after_members g totals r.join_group d,
            v.whole g,
            members-append g fired (r ∷ []),
            members-append g ready next.0,
          );
          complete = λ g h. elim (after_done g totals r.join_group d h) [
            | inl old ↦ omega (arith, v.complete g old, v.whole g, members-append g fired (r ∷ []))
            | inr full ↦ omega (arith, full, total g, v.counts g, members-append g fired (r ∷ []))
          ];
          unblocked = after_unblocked totals r.join_group ready d v.unblocked.1;
        }

    schedule_from-InOrder :
        (n : ℕ) (fired ready : List (ReactionDef N)) (d : Pending N)
        → Inv matched fired ready d
        → InOrder matched fired (schedule_from n totals ready d)
    unfolding schedule_from
    schedule_from-InOrder zero fired [] d v = tt
    schedule_from-InOrder (suc n) fired [] d v = tt
    schedule_from-InOrder zero fired (r ∷ ready) d v = tt
    schedule_from-InOrder (suc n) fired (r ∷ ready) d v = (
      λ g required. v.complete g (required_done g d.groups_done r.requires v.unblocked.0 required),
      schedule_from-InOrder n (fired ++ r ∷ []) _ _ (Inv-fire fired ready r d v),
    )

  all_unblocked :
      (rs : List (ReactionDef N)) → AllUnblocked [] (filter (λ r. is_empty r.requires) rs)
  all_unblocked [] = tt
  all_unblocked (r ∷ rs) = elim (Bool-cases (is_empty r.requires)) [
    | inl t ↦ rw t (empty_unblocked r.requires t, all_unblocked rs)
    | inr f ↦ rw f (all_unblocked rs)
  ]
    where
      empty_unblocked :
          (reqs : List String) → is_empty reqs ≡ true → all (λ q. contains q []) reqs ≡ true
      empty_unblocked [] h = refl
      empty_unblocked (q ∷ reqs) h = absurd (cc)

  -- The state of a dispatch at its start.
  abbrev pub started : List (ReactionDef N) → Pending N
  started matched = record {
    waiting = filter (λ r. not (is_empty r.requires)) matched;
    group_done_count = [];
    groups_done = [];
  }

  pub started-Inv :
      (matched : List (ReactionDef N))
      → Inv matched [] (filter (λ r. is_empty r.requires) matched) (started matched)
  unfolding lookup
  started-Inv matched = record {
    counts = λ g. refl;
    whole = λ g. omega (arith, members-filter g (λ r. is_empty r.requires) matched);
    complete = λ g h. absurd (cc);
    unblocked = all_unblocked matched;
  }

  pub count_of-totals :
      (matched : List (ReactionDef N)) (g : String)
      → count_of g (group_totals matched []) ≡ members g matched
  unfolding lookup
  count_of-totals matched g = count_of-group_totals g matched [] ∙ omega arith

  pub schedule-InOrder : (matched : List (ReactionDef N)) → InOrder matched [] (schedule matched)
  unfolding schedule
  schedule-InOrder matched =
      schedule_from-InOrder matched (group_totals matched []) (count_of-totals matched)
        (length matched) [] (filter (λ r. is_empty r.requires) matched) (started matched)
        (started-Inv matched)
