-- ===== src/Compose/Loads.antt =====
-- `load_topology` returns: each file is visited once, so a file system with finitely many is enough.
use sig_topo.Base.{
  ℕ, zero, suc, ◌≤◌, ◌<◌, String, ◌≡◌, refl, subst, sym, true, false, Option, none, some, List, [],
  ◌∷◌, length, contains, ◌==◌, eq_iff, arith, Bool-cases, Result-cases, inl, inr, Result, ok, err,
  and_then-eq-ok, map_err, if◌then◌else◌,
}
use sig_topo.Error.{EngineError}
use sig_topo.Schema.{TopologySchema}
use sig_topo.Compose.Expand.{expand}
use sig_topo.Compose.Load.{
  Files, merge_in, found_or, expand_loaded, Loaded, and_load, read_file, load_includes,
  load_topology_inner, load_topology,
}

-- How many of the names are not seen yet.
abbrev unseen : List String → List String → ℕ
unseen seen [] = 0
unseen seen (n ∷ names) = let rest = unseen seen names in if contains n seen then rest else suc rest

unseen-cons : (c : String) (seen names : List String) → unseen (c ∷ seen) names ≤ unseen seen names
unseen-cons c seen [] = omega arith
unseen-cons c seen (n ∷ names) = ground (arith, unseen-cons c seen names)

-- Seeing a name for the first time leaves fewer.
unseen_new :
    (c : String) (seen names : List String)
    → contains c names ≡ true
    → contains c seen ≡ false
    → unseen (c ∷ seen) names < unseen seen names
unseen_new c seen [] h new = absurd (cc h)
unseen_new c seen (n ∷ names) h new = elim (Bool-cases (n == c)) [
  | inl same ↦
      let fewer = unseen-cons c seen names in
      let here : contains n seen ≡ false =
        subst (λ q. contains q seen ≡ false) (sym ((eq_iff n c).0 same)) new in
      let now : (c == n) ≡ true = ground (arith, same, eq_iff n c, eq_iff c n) in
      rw (here, now) (omega arith)
  | inr other ↦
      let rest = unseen_new c seen names (ground (arith, h, other)) new in
      let now : (c == n) ≡ false = ground (arith, other, eq_iff n c, eq_iff c n) in
      elim (Bool-cases (contains n seen)) [
        | inl old ↦ rw (now, old) rest
        | inr fresh ↦ rw (now, fresh) (omega arith)
      ]
]

unseen_most : (seen names : List String) → unseen seen names ≤ length names
unseen_most seen [] = omega arith
unseen_most seen (n ∷ names) = ground (arith, unseen_most seen names)

was_found : (o : Option String) (path c : String) → found_or o path ≡ ok c → o ≡ some c
was_found none path c h = absurd (cc h)
was_found (some d) path c h = cc h

module _ {N : Type 0} (names : List String) where
  -- A load that returns, with no fewer paths seen.
  abbrev Returns : ℕ → Loaded N → Type 0
  Returns n none = ⊥
  Returns n (some (err x)) = Unit
  Returns n (some (ok r)) = unseen r.1 names ≤ n

  Returns-le : (n m : ℕ) (r : Loaded N) → n ≤ m → Returns n r → Returns m r
  Returns-le n m none le h = h
  Returns-le n m (some (err x)) le h = tt
  Returns-le n m (some (ok r)) le h = omega arith

  and_load-Returns :
      (n m : ℕ) (r : Loaded N) (k : TopologySchema N → List String → Loaded N)
      → Returns n r
      → ((sub : TopologySchema N) (seen : List String)
          → unseen seen names ≤ n
          → Returns m (k sub seen))
      → Returns m (and_load r k)
  and_load-Returns n m none k h next = absurd h
  and_load-Returns n m (some (err x)) k h next = tt
  and_load-Returns n m (some (ok (sub, seen))) k h next = next sub seen h

  load_includes-Returns :
      (n : ℕ) (load : String → List String → Loaded N) (join : String → String)
      (includes : List String) (merged : TopologySchema N) (seen : List String)
      → ((path : String) (s : List String)
          → unseen s names ≤ n
          → Returns (unseen s names) (load path s))
      → unseen seen names ≤ n
      → Returns n (load_includes load join includes merged seen)
  unfolding load_includes
  load_includes-Returns n load join [] merged seen total h = h
  load_includes-Returns n load join (inc ∷ includes) merged seen total h =
      and_load-Returns (unseen seen names) n (load (join inc) seen) _ (total (join inc) seen h)
        λ sub seen' fewer. elim (Result-cases (merge_in merged sub)) [
          | inr (x, failed) ↦ rw (failed, Returns) tt
          | inl (both, merges) ↦
              rw (merges, Returns)
                (load_includes-Returns n load join includes both seen' total (omega arith))
        ]

  module _ (files : Files N)
      (finite : (path c : String)
        → files.canonicalize path ≡ some c
        → contains c names ≡ true) where
    read_file_finite :
        (path : String) (schema : TopologySchema N) (canonical : String)
        → read_file files path ≡ ok (schema, canonical)
        → contains canonical names ≡ true
    unfolding read_file
    read_file_finite path schema canonical h =
        let (text, _, h1) = and_then-eq-ok (found_or (files.read_to_string path) path) _ h in
        let (parsed, _, h2) = and_then-eq-ok (map_err _ (files.from_str text)) _ h1 in
        let (c, found, h3) = and_then-eq-ok (found_or (files.canonicalize path) path) _ h2 in
        let same : c ≡ canonical = cc h3 in
        subst (λ q. contains q names ≡ true) same
          (finite path c (was_found (files.canonicalize path) path c found))

    load_topology_inner-Returns :
        (fuel : ℕ) (path : String) (seen : List String)
        → unseen seen names < fuel
        → Returns (unseen seen names) (load_topology_inner files fuel path seen)
    unfolding load_topology_inner
    load_topology_inner-Returns zero path seen h = absurd (omega arith)
    load_topology_inner-Returns (suc fuel) path seen h =
        elim (Result-cases (read_file files path)) [
          | inr (x, failed) ↦ rw (failed, Returns) tt
          | inl ((schema, canonical), read) ↦ elim (Bool-cases (contains canonical seen)) [
            | inl old ↦ rw (read, old, Returns) tt
            | inr new ↦
                let fewer =
                  unseen_new canonical seen names (read_file_finite path schema canonical read)
                    new in
                let inner =
                  load_includes-Returns (unseen (canonical ∷ seen) names)
                    (load_topology_inner files fuel) (files.join_parent path) schema.includes
                    (record schema { includes = [] }) (canonical ∷ seen)
                    (λ p s le. load_topology_inner-Returns fuel p s (omega arith)) (omega arith) in
                rw (read, new, Returns)
                  (Returns-le (unseen (canonical ∷ seen) names) (unseen seen names) _ (omega arith)
                    inner)
          ]
        ]

    expand_loaded-Returns :
        (n : ℕ) (r : Loaded N)
        → Returns n r
        → (e : Result EngineError (TopologySchema N)) × (expand_loaded r ≡ some e)
    expand_loaded-Returns n none h = absurd h
    expand_loaded-Returns n (some (err x)) h = (err x, refl)
    expand_loaded-Returns n (some (ok (merged, seen))) h = (expand merged, refl)

    -- Where the files have finitely many canonical paths, `load_topology` returns, a topology or an
    -- error, whatever the files include, cycles among them: one level of recursion more than there
    -- are paths is enough.
    pub load_topology-returns :
        (path : String)
        → (r : Result EngineError (TopologySchema N)) × (load_topology files
              (suc (length names))
              path
            ≡ some r)
    unfolding load_topology
    load_topology-returns path =
        let all = unseen_most [] names in
        expand_loaded-Returns (unseen [] names) _
          (load_topology_inner-Returns (suc (length names)) path [] (omega arith))
