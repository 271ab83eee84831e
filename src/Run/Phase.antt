-- ===== src/Run/Phase.antt =====
-- A phase of a transition whose actions are handlers of a run: the first name of the fail set ends it.
use sig_topo.Base.{
  String, Bool, ◌≡◌, refl, sym, ap, subst, ◌∙◌, ◌⊎◌, inl, inr, none, some, List, [], ◌∷◌, ◌++◌, All,
  contains, find, Bool-cases, HashMap, lookup, if◌then◌else◌, ok, err,
}
use sig_topo.Json.{Platform}
use sig_topo.Error.{EngineError}
use sig_topo.Context.{ActionContext}
use sig_topo.Engine.State.{ActionFn, Engine, Act, ◌>>=◌, record_event}
use sig_topo.Engine.Action.{run_action, run_actions, call, after_call}
use sig_topo.Engine.Holds.{Holds}
use sig_topo.Engine.Walk.{actions-Holds}
use sig_topo.Run.{FailSet, IsCell, injected_failure, handler}
use sig_topo.Run.Keeps.{
  IsRegistered, Keeps, Keeps-preorder, record_event-Keeps, set_current-Keeps, run_action-Keeps,
}

pub find-append :
    {A : Type 0} (p : A → Bool) (xs ys : List A) (x : A)
    → find p (xs ++ ys) ≡ some x
    → (find p xs ≡ some x) ⊎ ((find p xs ≡ none) × (find p ys ≡ some x))
find-append p [] ys x h = inr (refl, h)
find-append p (y ∷ xs) ys x h = elim (Bool-cases (p y)) [
  | inl t ↦ inl (rw t (rw t at h))
  | inr f ↦ rw f (find-append p xs ys x (rw f at h))
]

pub All-append :
    {A : Type 0} (P : A → Type 0) (xs ys : List A) → All P (xs ++ ys) → All P xs × All P ys
All-append P [] ys h = (tt, h)
All-append P (x ∷ xs) ys h = let rest = All-append P xs ys h.1 in ((h.0, rest.0), rest.1)

module _ {p : Platform} {A B : Type 0} (m : Act p A) (f : A → Act p B) (e : Engine p) where
  pub bind-err : (x : EngineError) → (m e).0 ≡ err x → (m >>= f) e ≡ (err x, (m e).1)
  unfolding ◌>>=◌
  bind-err x h = rw h refl

  pub bind-ok : (a : A) → (m e).0 ≡ ok a → (m >>= f) e ≡ f a (m e).1
  unfolding ◌>>=◌
  bind-ok a h = rw h refl

-- The handlers of a run, and the names in the fail set while one event is sent.
pub record Injection (p : Platform) : Type 0 where
  pub fail_set : FailSet p
  pub println : String → p.World → p.World
  pub recording : Bool
  pub cell : IsCell fail_set println
  pub actions : HashMap (ActionFn p)
  pub registered : IsRegistered fail_set println recording actions
  pub names : List String

module _ {p : Platform} (run : Injection p) where
  abbrev pub registered_handler : String → ActionFn p
  registered_handler = handler run.println (some run.fail_set) run.recording

  abbrev pub IsArmed : Engine p → Type 0
  IsArmed e = (e.actions ≡ run.actions) × (run.fail_set.borrow e.world ≡ run.names)

  abbrev pub AreRun : List String → Type 0
  AreRun = All (λ id. lookup id run.actions ≡ some (registered_handler id))

  abbrev pub is_named : String → Bool
  is_named id = contains id run.names

  abbrev pub KeepsRun : Engine p → Engine p → Type 0
  KeepsRun = Keeps run.fail_set run.println run.recording

  pub IsArmed-after :
      {A : Type 0} (m : Act p A) (e : Engine p)
      → Holds {p = p} KeepsRun m
      → IsArmed e
      → IsArmed (m e).1
  IsArmed-after m e h (same, set) =
      let kept =
        h.at e
          (subst (IsRegistered run.fail_set run.println run.recording) (sym same) run.registered) in
      (kept.0 ∙ same, kept.1 ∙ set)

  module _ (sid : String) (ctx : ActionContext p) where
    run_action-outcome :
        (id : String) (e : Engine p)
        → IsArmed e
        → lookup id run.actions ≡ some (registered_handler id)
        → (run_action sid id ctx e).0 ≡ (if is_named id then err (injected_failure id) else ok tt)
    unfolding run_action record_event call after_call handler injected_failure ◌>>=◌
    run_action-outcome id e (same, set) found =
        rw (same, found, set)
          (elim (Bool-cases (is_named id)) [ inl t ↦ rw t refl | inr f ↦ rw f refl ])

    pub actions_keep :
        (ids executed : List String)
        → Holds {p = p} KeepsRun (run_actions {p = p} sid ctx ids executed)
    actions_keep ids executed =
        actions-Holds (Keeps-preorder run.fail_set run.println run.recording)
          (record_event-Keeps run.fail_set run.println run.recording)
          (set_current-Keeps run.fail_set run.println run.recording)
          (run_action-Keeps run.fail_set run.println run.recording run.cell) sid ctx ids executed

    run_actions-step :
        (id : String) (ids executed : List String)
        → run_actions {p = p} sid ctx (id ∷ ids) executed
          ≡ (run_action {p = p} sid id ctx >>= λ _. run_actions sid ctx ids (executed ++ id ∷ []))
    unfolding run_actions
    run_actions-step id ids executed = refl

    pub run_actions-injected :
        (ids executed : List String) (e : Engine p) (bad : String)
        → IsArmed e
        → AreRun ids
        → find is_named ids ≡ some bad
        → (run_actions sid ctx ids executed e).0 ≡ err (injected_failure bad)
    run_actions-injected [] executed e bad armed handled h = absurd (cc h)
    run_actions-injected (id ∷ ids) executed e bad armed handled h =
        let first = run_action-outcome id e armed handled.0 in
        ap (λ m. (m e).0) (run_actions-step id ids executed) ∙ elim (Bool-cases (is_named id)) [
          | inl t ↦
              let same : id ≡ bad = cc (rw t at h) in
              ap (λ r. r.0) (bind-err _ _ e (injected_failure id) (rw t at first))
              ∙ ap (λ x. err (injected_failure x)) same
          | inr f ↦
              ap (λ r. r.0) (bind-ok _ _ e tt (rw f at first))
              ∙ run_actions-injected ids (executed ++ id ∷ []) _ bad
                  (IsArmed-after _ e
                    (run_action-Keeps run.fail_set run.println run.recording run.cell sid id ctx)
                    armed)
                  handled.1 (rw f at h)
        ]

    run_actions-none :
        (executed : List String) (e : Engine p)
        → (run_actions sid ctx [] executed e).0 ≡ ok executed
    unfolding run_actions
    run_actions-none executed e = refl

    pub run_actions-done :
        (ids executed : List String) (e : Engine p)
        → IsArmed e
        → AreRun ids
        → find is_named ids ≡ none
        → (out : List String) × ((run_actions sid ctx ids executed e).0 ≡ ok out)
    run_actions-done [] executed e armed handled h = (executed, run_actions-none executed e)
    run_actions-done (id ∷ ids) executed e armed handled h =
        let first = run_action-outcome id e armed handled.0 in
        elim (Bool-cases (is_named id)) [
          | inl t ↦ absurd (cc (rw t at h))
          | inr f ↦
              let (out, rest) =
                run_actions-done ids (executed ++ id ∷ []) _
                  (IsArmed-after _ e
                    (run_action-Keeps run.fail_set run.println run.recording run.cell sid id ctx)
                    armed)
                  handled.1 (rw f at h) in
              (
                out,
                ap (λ m. (m e).0) (run_actions-step id ids executed)
                    ∙ ap (λ r. r.0) (bind-ok _ _ e tt (rw f at first))
                    ∙ rest,
              )
        ]
