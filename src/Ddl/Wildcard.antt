-- ===== src/Ddl/Wildcard.antt =====
-- The lowering of a wildcard source to one transition for each state chooses the same transitions.
use sig_topo.Base.{
  String, Bool, true, false, ◌≡◌, refl, ap, ◌∙◌, Option, none, some, List, [], ◌∷◌, ◌++◌, map, find,
  contains, ◌==◌, eq_refl, arith, Bool-cases, Option-cases, inl, inr,
}
use mathlib.Core.Option
use sig_topo.Schema.{TransitionDef}
use sig_topo.Engine.Send.{transition_matches, state_matches, find_transition}
use sig_topo.Ddl.Ast.{TransDecl}
use sig_topo.Ddl.Codegen.{transition_from, emit_transition, emit_transitions}

-- The transition, whatever its source is.
abbrev pub sourceless : TransitionDef → TransitionDef
sourceless t = record t { from = "" }

abbrev pub chosen : Option TransitionDef → Option TransitionDef
chosen = Option.map sourceless

find-append :
    {A : Type 0} (test : A → Bool) (xs ys : List A)
    → find test (xs ++ ys) ≡ elim (find test xs) [ none ↦ find test ys | some x ↦ some x ]
find-append test [] ys = refl
find-append test (x ∷ xs) ys = elim (Bool-cases (test x)) [
  | inl here ↦ rw here refl
  | inr other ↦ rw other (find-append test xs ys)
]

module _ (id event current : String) where
  -- For an event that is not the transition's, no state's copy matches.
  no_copy :
      (tr : TransDecl) (states : List String)
      → (tr.event == event) ≡ false
      → find (transition_matches id event current) (map (transition_from id tr) states) ≡ none
  no_copy tr [] h = refl
  no_copy tr (s ∷ states) h = rw (eq_refl, h) (no_copy tr states h)

  -- For the transition's event, some copy matches, if the current state is declared.
  some_copy :
      (tr : TransDecl) (states : List String)
      → (tr.event == event) ≡ true
      → contains current states ≡ true
      → chosen (find (transition_matches id event current) (map (transition_from id tr) states))
        ≡ some (sourceless (transition_from id tr "*"))
  some_copy tr [] h inside = absurd (cc inside)
  some_copy tr (s ∷ states) h inside = elim (Bool-cases (state_matches s current)) [
    | inl matches ↦ rw (eq_refl, h, matches) refl
    | inr other ↦
        let inside' : contains current states ≡ true = ground (arith, inside, other) in
        rw (eq_refl, h, other) (some_copy tr states h inside')
  ]

  -- In a declared state, the lowered transitions of a signal give the same choice for an event as
  -- the written ones, in which a wildcard source stands for every state: none in both, or transitions
  -- that differ in the source at most.
  pub emit_transitions-find :
      (states : List String) (trs : List TransDecl)
      → contains current states ≡ true
      → chosen (find_transition id event current (emit_transitions id states trs))
        ≡ chosen (find_transition id event current (map (λ tr. transition_from id tr tr.from) trs))
  unfolding emit_transitions emit_transition find_transition
  emit_transitions-find states [] inside = refl
  emit_transitions-find states (tr ∷ trs) inside =
      let rest = emit_transitions-find states trs inside in
      let test = transition_matches id event current in
      elim (Bool-cases (tr.from == "*")) [
        | inr other ↦ elim (Bool-cases (tr.event == event)) [
          | inr different ↦ rw (other, eq_refl, different) rest
          | inl same ↦ elim (Bool-cases (tr.from == current)) [
            | inl here ↦ rw (other, eq_refl, same, here) refl
            | inr elsewhere ↦ rw (other, eq_refl, same, elsewhere, other) rest
          ]
        ]
        | inl star ↦ elim (Bool-cases (tr.event == event)) [
          | inr different ↦
              rw (star, different, eq_refl)
                (ap chosen (
                    find-append test (map (transition_from id tr) states) _
                    ∙ rw (no_copy tr states different) refl)
                  ∙ rest)
          | inl same ↦
              let copy = some_copy tr states same inside in
              elim (Option-cases (find test (map (transition_from id tr) states))) [
                | inl missing ↦ absurd (cc (rw missing at copy))
                | inr (x, found) ↦
                    let first =
                      find-append test (map (transition_from id tr) states)
                        (emit_transitions id states trs) in
                    let hit : find test
                          (map (transition_from id tr) states ++ emit_transitions id states trs)
                        ≡ some x =
                      first ∙ rw found refl in
                    let copied = ap chosen hit ∙ (rw found at copy) in
                    elim (Bool-cases (tr.from == current)) [
                      | inl here ↦ rw (star, same, eq_refl, here) copied
                      | inr elsewhere ↦ rw (star, same, eq_refl, elsewhere) copied
                    ]
              ]
        ]
      ]
