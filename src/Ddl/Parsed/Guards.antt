-- ===== src/Ddl/Parsed/Guards.antt =====
-- The references to guards that `parse_doc` resolves.
use sig_topo.Base.{
  String, ◌≡◌, refl, sym, ap, subst, ◌∙◌, false, Option, none, some, List, [], ◌∷◌, map, contains,
  find, All, HashMap, lookup, insert, lookup-insert, ◌==◌, eq_iff, arith, Bool-cases, Option-cases,
  inl, inr, Result, ok, and_then-eq-ok, ok_inj,
}
use sig_topo.Ddl.Ast.{ReactionDecl, GuardDecl}
use sig_topo.Ddl.Parser.Reactions.{RawGuard, lit, ref, RawReaction}
use sig_topo.Ddl.Parser.Doc.{guard_map, resolve_guard, resolve_reaction, collect}
use sig_topo.Ddl.Parsed.{Distinct, IsResolved}

abbrev template : String → List GuardDecl → Option GuardDecl
template id = find (λ h. h.id == id)

abbrev expr_or : Option GuardDecl → Option String → Option String
expr_or none other = other
expr_or (some g) other = some g.expr

template-none :
    (id : String) (guards : List GuardDecl)
    → contains id (map (λ g. g.id) guards) ≡ false
    → template id guards ≡ none
template-none id [] h = refl
template-none id (g ∷ gs) h = ground (arith, h, template-none id gs)

-- Where the ids are distinct, the map holds the text of the template of that id.
lookup-guard_map :
    (id : String) (guards : List GuardDecl) (m : HashMap String)
    → Distinct (map (λ g. g.id) guards)
    → lookup id (guard_map guards m) ≡ expr_or (template id guards) (lookup id m)
unfolding guard_map
lookup-guard_map id [] m d = refl
lookup-guard_map id (g ∷ gs) m d =
    let later = lookup-guard_map id gs (insert g.id g.expr m) d.1 in
    let written = lookup-insert g.id id g.expr m in
    elim (Bool-cases (g.id == id)) [
      | inl here ↦
          let same : g.id ≡ id = (eq_iff g.id id).0 here in
          let fresh =
            template-none id gs
              (subst (λ (k : String). contains k (map (λ h. h.id) gs) ≡ false) same d.0) in
          later ∙ rw (fresh, written, here) refl
      | inr other ↦ later ∙ rw (written, other) refl
    ]

found_template :
    (id expr : String) (guards : List GuardDecl)
    → Distinct (map (λ g. g.id) guards)
    → lookup id (guard_map guards []) ≡ some expr
    → (g : GuardDecl) × (template id guards ≡ some g) × (some expr ≡ some g.expr)
unfolding lookup
found_template id expr guards d h =
    let held = lookup-guard_map id guards [] d in
    elim (Option-cases (template id guards)) [
      | inl missing ↦ absurd (cc (h, rw missing at held))
      | inr (g, found) ↦ (g, found, sym h ∙ (rw found at held))
    ]

resolve_reaction-IsResolved :
    (guards : List GuardDecl) (raw : RawReaction) (r : ReactionDecl)
    → Distinct (map (λ g. g.id) guards)
    → resolve_reaction (guard_map guards []) raw ≡ ok r
    → IsResolved guards r
unfolding resolve_reaction
resolve_reaction-IsResolved guards raw r d h =
    let (g, resolved, made) =
      and_then-eq-ok (resolve_guard raw.guard raw (guard_map guards [])) _ h in
    subst (IsResolved guards) (ok_inj made) (by_guard raw.guard g resolved)
  where
    by_guard :
        (written : Option RawGuard) (g : Option String × Option String)
        → resolve_guard written raw (guard_map guards []) ≡ ok g
        → (id : String) → g.1 ≡ some id
        → (t : GuardDecl) × (template id guards ≡ some t) × (g.0 ≡ some t.expr)
    by_guard none g e id k = absurd (cc (e, k))
    by_guard (some (lit s)) g e id k = absurd (cc (e, k))
    by_guard (some (ref name)) g e id k = elim (Option-cases (lookup name (guard_map guards []))) [
      | inl missing ↦ absurd (cc (rw missing at e))
      | inr (expr, found) ↦
          let same : (some expr, some name) ≡ g = ok_inj (rw found at e) in
          let name_id : name ≡ id = cc (same, k) in
          let (t, at, text) = found_template name expr guards d found in
          (
            t,
            subst (λ (n : String). template n guards ≡ some t) name_id at,
            sym (ap (λ x. x.0) same) ∙ text,
          )
    ]

pub collect-All :
    {A B : Type 0} (Q : B → Type 0) (f : A → Result String B) (xs : List A) (ys : List B)
    → ((x : A) (y : B) → f x ≡ ok y → Q y)
    → collect f xs ≡ ok ys
    → All Q ys
unfolding collect
collect-All Q f [] ys each h = subst (All Q) (ok_inj h) tt
collect-All Q f (x ∷ xs) ys each h =
    let (y, first, h') = and_then-eq-ok (f x) _ h in
    let (rest, later, made) = and_then-eq-ok (collect f xs) _ h' in
    subst (All Q) (ok_inj made) (each x y first, collect-All Q f xs rest each later)

-- Every reaction that is resolved has the text of the template that it names.
pub collect-IsResolved :
    (guards : List GuardDecl) (raws : List RawReaction) (rs : List ReactionDecl)
    → Distinct (map (λ g. g.id) guards)
    → collect (resolve_reaction (guard_map guards [])) raws ≡ ok rs
    → All (IsResolved guards) rs
collect-IsResolved guards raws rs d h =
    collect-All (IsResolved guards) (resolve_reaction (guard_map guards [])) raws rs
      (λ raw r. resolve_reaction-IsResolved guards raw r d) h
