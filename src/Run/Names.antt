-- ===== src/Run/Names.antt =====
-- The names that a scenario's event puts in the fail set, and takes out of it.
use sig_topo.Base.{
  Bool-cases, inl, inr, String, false, not, ◌&&◌, ◌||◌, ◌≡◌, refl, sym, ap, List, [], ◌∷◌, contains,
  ◌==◌, arith, eq_iff, eq_refl,
}
use sig_topo.Json.{Platform}
use sig_topo.Run.{FailSet, IsCell, set_insert, set_remove, extend, insert_names, remove_names}

-- The loop of removals, on the set alone.
abbrev pub without : List String → List String → List String
without [] set = set
without (name ∷ names) set = without names (set_remove name set)

contains-set_insert :
    (x name : String) (set : List String)
    → contains x (set_insert name set) ≡ (contains x set || name == x)
unfolding set_insert
contains-set_insert x name set = elim (Bool-cases (name == x)) [
  | inl same ↦
      let equal = (eq_iff name x).0 same in
      ground (arith, same, equal, ap (λ y. contains y set) equal)
  | inr other ↦ ground (arith, other)
]

contains-set_remove :
    (x name : String) (set : List String)
    → contains x (set_remove name set) ≡ (contains x set && not (name == x))
unfolding set_remove
contains-set_remove x name [] = refl
contains-set_remove x name (y ∷ set) =
    ground (arith, eq_iff y name, eq_iff y x, eq_iff name x, contains-set_remove x name set)

pub contains-extend :
    (x : String) (names set : List String)
    → contains x (extend names set) ≡ (contains x set || contains x names)
unfolding extend
contains-extend x [] set = ground arith
contains-extend x (name ∷ names) set =
    ground (arith, contains-set_insert x name set, contains-extend x names (set_insert name set))

contains-without :
    (x : String) (names set : List String)
    → contains x (without names set) ≡ (contains x set && not (contains x names))
contains-without x [] set = ground arith
contains-without x (name ∷ names) set =
    ground (arith, contains-set_remove x name set, contains-without x names (set_remove name set))

-- A set with no elements is the empty list.
empty_of : (set : List String) → ((x : String) → contains x set ≡ false) → set ≡ []
empty_of [] none_in = refl
empty_of (x ∷ set) none_in = let no = none_in x in ground (arith, eq_refl x, no)

-- Taking names out of the set that they were put in, from the empty set, leaves it empty.
pub without-extend : (names : List String) → without names (extend names []) ≡ []
without-extend names =
    empty_of _
      λ x. grind (arith, contains-without x names (extend names []), contains-extend x names [])

module _ {p : Platform} (fail_set : FailSet p) (println : String → p.World → p.World)
    (cell : IsCell fail_set println) where
  -- The loops write the set that they compute, once.
  pub insert_names-replace :
      (names : List String) (w : p.World)
      → insert_names fail_set names w ≡ fail_set.replace (extend names (fail_set.borrow w)) w
  unfolding insert_names extend
  insert_names-replace [] w = sym (cell.replace-borrow w)
  insert_names-replace (name ∷ names) w =
      let set = set_insert name (fail_set.borrow w) in
      rw (insert_names-replace names (fail_set.replace set w), cell.borrow-replace set w)
        (cell.replace-replace (extend names set) set w)

  pub remove_names-replace :
      (names : List String) (w : p.World)
      → remove_names fail_set names w ≡ fail_set.replace (without names (fail_set.borrow w)) w
  unfolding remove_names
  remove_names-replace [] w = sym (cell.replace-borrow w)
  remove_names-replace (name ∷ names) w =
      let set = set_remove name (fail_set.borrow w) in
      rw (remove_names-replace names (fail_set.replace set w), cell.borrow-replace set w)
        (cell.replace-replace (without names set) set w)
