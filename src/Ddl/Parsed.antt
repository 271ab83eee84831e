-- ===== src/Ddl/Parsed.antt =====
-- What ddl/parser.rs promises of the declarations that it accepts.
pub mod Signals
pub mod Guards
pub mod Documents
use mathlib.Core.List.{map-append}
use sig_topo.Base.{
  String, ◌≡◌, refl, sym, ap, ◌∙◌, Bool, true, false, ◌||◌, ◌⊎◌, inl, inr, Option, none, some, List,
  [], ◌∷◌, ◌++◌, map, contains, find, All, ◌==◌, eq_iff, eq_refl, arith, Bool-cases,
}
use sig_topo.Ddl.Ast.{TransDecl, SignalDecl, ReactionDecl, ComponentDecl, GuardDecl, DdlDoc}

abbrev pub Distinct : List String → Type 0
Distinct [] = Unit
Distinct (x ∷ xs) = (contains x xs ≡ false) × Distinct xs

abbrev pub IsTransition : List String → TransDecl → Type 0
IsTransition states t =
    ((t.from ≡ "*") ⊎ (contains t.from states ≡ true)) × (contains t.to states ≡ true)

-- The initial state and the ends of the transitions are declared.
pub record IsSignal (sig : SignalDecl) : Type 0 where
  pub initial_in : contains sig.initial sig.states ≡ true
  pub transitions_in : All (IsTransition sig.states) sig.transitions

-- A guard that was written as a reference has the text of the template of that name.
abbrev pub IsResolved : List GuardDecl → ReactionDecl → Type 0
IsResolved guards r =
    (id : String)
    → r.guard_ref ≡ some id
    → (g : GuardDecl) × (find (λ h. h.id == id) guards ≡ some g) × (r.guard ≡ some g.expr)

pub record IsComponent (guards : List GuardDecl) (c : ComponentDecl) : Type 0 where
  pub signals : All IsSignal c.signals
  pub signal_ids : Distinct (map (λ s. s.id) c.signals)
  pub reactions : All (IsResolved guards) c.reactions

pub record IsDocument (doc : DdlDoc) : Type 0 where
  pub signals : All IsSignal doc.signals
  pub signal_ids : Distinct (map (λ s. s.id) doc.signals)
  pub guard_ids : Distinct (map (λ g. g.id) doc.guards)
  pub component_ids : Distinct (map (λ c. c.id) doc.components)
  pub reactions : All (IsResolved doc.guards) doc.reactions
  pub components : All (IsComponent doc.guards) doc.components

pub contains-append :
    (s : String) (xs ys : List String) → contains s (xs ++ ys) ≡ (contains s xs || contains s ys)
contains-append s [] ys = refl
contains-append s (x ∷ xs) ys = ground (arith, contains-append s xs ys)

Distinct-concat :
    (xs : List String) (x : String) → Distinct xs → contains x xs ≡ false → Distinct (xs ++ x ∷ [])
Distinct-concat [] x d h = (refl, tt)
Distinct-concat (y ∷ xs) x d h = (
  contains-append y xs (x ∷ []) ∙ ground (arith, d.0, h, eq_iff x y, eq_iff y x),
  Distinct-concat xs x d.1 (ground (arith, h)),
)

pub All-concat :
    {A : Type 0} (P : A → Type 0) (xs : List A) (x : A) → All P xs → P x → All P (xs ++ x ∷ [])
All-concat P [] x h k = (k, tt)
All-concat P (y ∷ xs) x h k = (h.0, All-concat P xs x h.1 k)

-- The ids of the items are distinct, and are those seen.
pub record Tracks {A : Type 0} (id : A → String) (items : List A) (seen : List String)
    : Type 0 where
  pub distinct : Distinct (map id items)
  pub same : (s : String) → contains s seen ≡ contains s (map id items)

pub Tracks-none : {A : Type 0} (id : A → String) → Tracks id [] []
Tracks-none id = record { distinct = tt; same = λ s. refl }

pub Tracks-add :
    {A : Type 0} (id : A → String) (items : List A) (seen : List String) (x : A)
    → Tracks id items seen
    → contains (id x) seen ≡ false
    → Tracks id (items ++ x ∷ []) (id x ∷ seen)
Tracks-add id items seen x t fresh = record {
  distinct =
      rw (map-append id items (x ∷ []))
        (Distinct-concat (map id items) (id x) t.distinct (sym (t.same (id x)) ∙ fresh));
  same = λ s.
      rw (map-append id items (x ∷ []), contains-append s (map id items) (id x ∷ []))
        (ground (arith, t.same s));
}
