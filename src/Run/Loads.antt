-- ===== src/Run/Loads.antt =====
-- What the loading for a run registers.
use sig_topo.Base.{
  ℕ, String, Bool, true, false, ◌||◌, ◌≡◌, refl, sym, ap, subst, ◌∙◌, inl, inr, Option, none, some,
  List, [], ◌∷◌, All, contains, Bool-cases, lookup, lookup-insert, if◌then◌else◌, ◌==◌, arith,
  eq_iff, eq_refl, Result, ok, err, Result-cases, and_then-eq-ok, ok_inj,
}
use sig_topo.Json.{Platform}
use sig_topo.Error.{EngineError}
use sig_topo.Schema.{TransitionDef, TopologySchema, all_actions}
use sig_topo.Compose.Expand.{expand}
use sig_topo.Compose.Flat.{expand-IsExpansion}
use sig_topo.Compose.Load.{Files, Loaded, expand_loaded, load_topology_inner, load_topology}
use sig_topo.Engine.State.{ActionFn, Engine}
use sig_topo.Engine.Validate.{validate}
use sig_topo.Engine.Build.{from_schema, register_action}
use sig_topo.Run.{
  FailSet, extend, extend_all, collect_action_ids, handler, register_actions, loaded_for_run,
  load_topology_for_run,
}
use sig_topo.Run.Names.{contains-extend}
use sig_topo.Run.Keeps.{IsRegistered}

contains-extend_later :
    (id : String) (ids : List String) (set : List String)
    → contains id set ≡ true
    → contains id (extend ids set) ≡ true
contains-extend_later id ids set h = grind (arith, contains-extend id ids set)

contains-extend_all :
    (id : String) (ts : List TransitionDef) (set : List String)
    → contains id set ≡ true
    → contains id (extend_all ts set) ≡ true
contains-extend_all id [] set h = h
contains-extend_all id (t ∷ ts) set h =
    contains-extend_all id ts _ (contains-extend_later id (all_actions t.actions) set h)

-- The ids of a list that are all in another one.
All-contains :
    (P : String → Type 0) (ids set : List String)
    → ((id : String) → contains id set ≡ true → P id)
    → ((id : String) → contains id ids ≡ true → contains id set ≡ true)
    → All P ids
All-contains P [] set h into = tt
All-contains P (id ∷ ids) set h into = (
  h id (into id (ground (arith, eq_refl id))),
  All-contains P ids set h λ x later. into x (ground (arith, later)),
)

All-extend_all :
    (P : String → Type 0) (ts : List TransitionDef) (set : List String)
    → ((id : String) → contains id (extend_all ts set) ≡ true → P id)
    → All (λ t. All P (all_actions t.actions)) ts
All-extend_all P [] set h = tt
All-extend_all P (t ∷ ts) set h = (
  All-contains P (all_actions t.actions) (extend (all_actions t.actions) set)
      (λ id found. h id (contains-extend_all id ts _ found))
      (λ id found. grind (arith, contains-extend id (all_actions t.actions) set)),
  All-extend_all P ts (extend (all_actions t.actions) set) h,
)

chosen :
    {A : Type 0} (h : String → A) (id x : String) (b : Bool) (before : Option A)
    → (if b then some (h id) else if x == id then some (h x) else before)
      ≡ (if x == id || b then some (h id) else before)
chosen h id x true before = ground arith
chosen h id x false before = elim (Bool-cases (x == id)) [
  | inl same ↦ rw same (ap (λ y. some (h y)) ((eq_iff x id).0 same))
  | inr other ↦ rw other refl
]

module _ {p : Platform} (println : String → p.World → p.World) (fail_set : Option (FailSet p))
    (recording : Bool) where
  lookup-register_actions :
      (id : String) (ids : List String) (e : Engine p)
      → lookup id (register_actions println fail_set recording ids e).actions ≡ (
          if contains id ids
          then some (handler println fail_set recording id)
          else lookup id e.actions)
  unfolding register_actions register_action
  lookup-register_actions id [] e = refl
  lookup-register_actions id (x ∷ ids) e =
      let h = handler println fail_set recording in
      let before = lookup id e.actions in
      lookup-register_actions id ids (register_action p x (h x) e)
      ∙ ap (λ o. if contains id ids then some (h id) else o) (lookup-insert x id (h x) e.actions)
      ∙ chosen h id x (contains id ids) before

  register_actions-fields :
      (ids : List String) (e : Engine p)
      → let e' = register_actions println fail_set recording ids e in
        (e'.transitions ≡ e.transitions) × (e'.world ≡ e.world)
  unfolding register_actions register_action
  register_actions-fields [] e = (refl, refl)
  register_actions-fields (x ∷ ids) e =
      register_actions-fields ids (register_action p x (handler println fail_set recording x) e)

  module _ (w : p.World) (reads : ℕ) where
    from_schema-fresh :
        (schema : TopologySchema p.Number) (e : Engine p)
        → expand schema ≡ ok schema
        → from_schema p w reads schema ≡ ok e
        → (e.transitions ≡ schema.transitions) × (e.actions ≡ []) × (e.world ≡ w)
    unfolding from_schema
    from_schema-fresh schema e again h =
        let (flat, expanded, h1) = and_then-eq-ok (expand schema) _ h in
        let (_, _, h2) = and_then-eq-ok (validate p flat) _ h1 in
        let same = ok_inj (sym expanded ∙ again) in
        (
          ap (λ f. f.transitions) (sym (ok_inj h2)) ∙ ap (λ s. s.transitions) same,
          ap (λ f. f.actions) (sym (ok_inj h2)),
          ap (λ f. f.world) (sym (ok_inj h2)),
        )

  -- Each action that a transition names has the handler of its id.
  abbrev pub AreHandled : List TransitionDef → Engine p → Type 0
  AreHandled ts e =
      All
        (λ t.
          All (λ id. lookup id e.actions ≡ some (handler println fail_set recording id))
            (all_actions t.actions))
        ts

module _ {p : Platform} (println : String → p.World → p.World) (fail_set : FailSet p)
    (recording : Bool) (w : p.World) (reads : ℕ) where
  -- What the engine of a run has: the handlers that share the fail set, and one for every action.
  abbrev pub CanRun : Engine p → Type 0
  CanRun e =
      IsRegistered fail_set println recording e.actions
      × AreHandled println (some fail_set) recording e.transitions e
      × (e.world ≡ w)

  registered-CanRun :
      (schema : TopologySchema p.Number) (e : Engine p)
      → (e.transitions ≡ schema.transitions) × (e.actions ≡ []) × (e.world ≡ w)
      → CanRun (register_actions println (some fail_set) recording (collect_action_ids schema) e)
  unfolding collect_action_ids lookup
  registered-CanRun schema e (transitions, none_yet, world) =
      let ids = extend_all schema.transitions [] in
      let h = handler println (some fail_set) recording in
      let e' = register_actions println (some fail_set) recording ids e in
      let fields = register_actions-fields println (some fail_set) recording ids e in
      let found = λ (id : String).
        lookup-register_actions println (some fail_set) recording id ids e
        ∙ ap (λ m. if contains id ids then some (h id) else lookup id m) none_yet in
      (
        λ id f here. only (h id) f (contains id ids) (sym (found id) ∙ here),
        subst (λ ts. AreHandled println (some fail_set) recording ts e')
            (sym (fields.0 ∙ transitions))
            (All-extend_all (λ id. lookup id e'.actions ≡ some (h id)) schema.transitions []
              λ id inside. found id ∙ ap (λ b. if b then some (h id) else none) inside),
        fields.1 ∙ world,
      )
    where
      only : (g f : ActionFn p) (b : Bool) → (if b then some g else none) ≡ some f → f ≡ g
      only g f true same = cc same
      only g f false same = absurd (cc same)

  loaded-CanRun :
      (path : String) (loaded : Option (Result EngineError (TopologySchema p.Number)))
      (e : Engine p)
      → ((schema : TopologySchema p.Number) → loaded ≡ some (ok schema) → expand schema ≡ ok schema)
      → loaded_for_run p println (some fail_set) recording path w reads loaded ≡ some (ok e)
      → CanRun e
  loaded-CanRun path none e again h = absurd (cc h)
  loaded-CanRun path (some (err x)) e again h = absurd (cc h)
  loaded-CanRun path (some (ok schema)) e again h =
      let register =
        register_actions println (some fail_set) recording (collect_action_ids schema) in
      elim (Result-cases (from_schema p w reads schema)) [
        | inr (x, failed) ↦ absurd (cc (rw failed at h))
        | inl (made, built) ↦
            let fresh =
              from_schema-fresh println (some fail_set) recording w reads schema made
                (again schema refl) built in
            let same : register made ≡ e = cc (rw built at h) in
            subst CanRun same (registered-CanRun schema made fresh)
      ]

  expand_loaded-again :
      (l : Loaded p.Number) (schema : TopologySchema p.Number)
      → expand_loaded l ≡ some (ok schema)
      → expand schema ≡ ok schema
  expand_loaded-again none schema h = absurd (cc h)
  expand_loaded-again (some (err x)) schema h = absurd (cc h)
  expand_loaded-again (some (ok (merged, seen))) schema h =
      let same : expand merged ≡ ok schema = cc h in (expand-IsExpansion merged schema same).again

  load_topology-again :
      (files : Files p.Number) (fuel : ℕ) (path : String) (schema : TopologySchema p.Number)
      → load_topology files fuel path ≡ some (ok schema)
      → expand schema ≡ ok schema
  unfolding load_topology
  load_topology-again files fuel path schema h =
      expand_loaded-again (load_topology_inner files fuel path []) schema h

  -- Where the loading for a run succeeds, every callback of the engine is the handler of its id, which
  -- shares the fail set; each action that a transition of the engine names has one; and the world is
  -- as it was.
  pub load_topology_for_run-CanRun :
      (files : Files p.Number) (fuel : ℕ) (path : String) (e : Engine p)
      → load_topology_for_run p println (some fail_set) recording files fuel path w reads
        ≡ some (ok e)
      → CanRun e
  unfolding load_topology_for_run
  load_topology_for_run-CanRun files fuel path e h =
      loaded-CanRun path (load_topology files fuel path) e (load_topology-again files fuel path) h
