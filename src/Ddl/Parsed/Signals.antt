-- ===== src/Ddl/Parsed/Signals.antt =====
-- The parsers of `signal` blocks yield declarations whose states are declared.
use sig_topo.Base.{String, ◌≡◌, refl, true, false, ◌⊎◌, inl, inr, List, [], contains, All}
use sig_topo.Json.{Platform}
use sig_topo.Ddl.Token.{TokenKind, Token}
use sig_topo.Ddl.Ast.{TransDecl}
use sig_topo.Ddl.Lexer.{located}
use sig_topo.Ddl.Parse.{◌>>◌, return}
use sig_topo.Ddl.Parser.{at, advance, fail_at}
use sig_topo.Ddl.Parser.Signals.{
  expect_state, expect_from, parse_transition, transition_step, expect_fresh, expect_initial,
  parse_signal,
}
use sig_topo.Ddl.Yields.{
  Either, Yields, Yields-weaken, Yields-keep, Yields-bind, Yields-then, Yields-return, Yields-split,
  Yields-failed, Yields-repeat,
}
use sig_topo.Ddl.Parsed.{IsTransition, IsSignal, All-concat}

module _ (p : Platform) where
  pub Yields-fail :
      {A : Type 0} (Q : A → Type 0) (t : Token p.Float) (m : String)
      → Yields p.Float Q (fail_at p t m)
  unfolding fail_at
  Yields-fail Q t m = Yields-failed p.Float Q (fail_at p t m) λ ts. (located p t.line t.col m, refl)

  Yields-expect_state :
      (end id : String) (states : List String)
      → Yields p.Float (λ s. contains s states ≡ true) (expect_state p end id states)
  unfolding expect_state
  Yields-expect_state end id states = Yields-bind p.Float _ _ _ λ found.
      Yields-split p.Float _ (contains (found.0) states) _ _
        (λ listed. Yields-return p.Float _ (found.0) listed) λ _. Yields-fail _ (found.1) _

  Yields-expect_initial :
      (states : List String)
      → Yields p.Float (λ s. contains s states ≡ true) (expect_initial p states)
  unfolding expect_initial
  Yields-expect_initial states = Yields-bind p.Float _ _ _ λ found.
      Yields-split p.Float _ (contains (found.0) states) _ _
        (λ listed. Yields-return p.Float _ (found.0) listed) λ _. Yields-fail _ (found.1) _

  pub Yields-expect_fresh :
      (what : String) (seen : List String)
      → Yields p.Float (λ s. contains s seen ≡ false) (expect_fresh p what seen)
  unfolding expect_fresh
  Yields-expect_fresh what seen = Yields-bind p.Float _ _ _ λ found.
      Yields-split p.Float _ (contains (found.0) seen) _ _ (λ _. Yields-fail _ (found.1) _)
        λ fresh. Yields-return p.Float _ (found.0) fresh

  Yields-expect_from :
      (id : String) (states : List String)
      → Yields p.Float (λ s. (s ≡ "*") ⊎ (contains s states ≡ true)) (expect_from p id states)
  unfolding expect_from
  Yields-expect_from id states = Yields-bind p.Float _ (at p TokenKind.mul) _ λ wildcard.
      Yields-split p.Float _ wildcard (advance p >> return "*") _
        (λ _. Yields-then p.Float _ (advance p) _ (Yields-return p.Float _ "*" (inl refl)))
        λ _. Yields-weaken p.Float _ _ _ (Yields-expect_state "from" id states) λ s. inr

  Yields-parse_transition :
      (src id : String) (states : List String)
      → Yields p.Float (IsTransition states) (parse_transition p src id states)
  unfolding parse_transition
  Yields-parse_transition src id states = Yields-then p.Float _ _ _ (
      Yields-bind p.Float _ _ _ λ event. Yields-then p.Float _ _ _ (
        Yields-keep p.Float _ _ _ _ (Yields-expect_from id states) λ from from_in.
          Yields-then p.Float _ _ _ (
            Yields-keep p.Float _ _ _ _ (Yields-expect_state "to" id states) λ to to_in.
              Yields-bind p.Float _ _ _ λ guard.
                Yields-bind p.Float _ _ _ λ actions. Yields-return p.Float _ _ (from_in, to_in))))

  Yields-transition_step :
      (src id : String) (states : List String) (ts : List TransDecl)
      → All (IsTransition states) ts
      → Yields p.Float
          (Either (All (IsTransition states)) (All (IsTransition states)))
          (transition_step p src id states ts)
  unfolding transition_step
  Yields-transition_step src id states ts h = Yields-bind p.Float _ _ _ λ more.
      Yields-split p.Float _ more _ _
        (λ _.
          Yields-keep p.Float _ _ _ _ (Yields-parse_transition src id states)
            λ t valid. Yields-return p.Float _ _ (All-concat (IsTransition states) ts t h valid))
        λ _. Yields-return p.Float _ _ h

  -- The signal is well-formed, and its id was not among those seen.
  pub Yields-parse_signal :
      (src : String) (seen : List String)
      → Yields p.Float
          (λ sig. IsSignal sig × (contains sig.id seen ≡ false))
          (parse_signal p src seen)
  unfolding parse_signal
  Yields-parse_signal src seen = Yields-then p.Float _ _ _ (
      Yields-keep p.Float _ _ _ _ (Yields-expect_fresh "signal" seen) λ id fresh.
        Yields-then p.Float _ _ _ (
          Yields-then p.Float _ _ _ (
            Yields-then p.Float _ _ _ (
              Yields-bind p.Float _ _ _ λ states. Yields-then p.Float _ _ _ (
                Yields-then p.Float _ _ _ (
                  Yields-keep p.Float _ _ _ _ (Yields-expect_initial states) λ initial inside.
                    Yields-keep p.Float _ _ _ _
                      (Yields-repeat p.Float (All (IsTransition states)) (All (IsTransition states))
                        (transition_step p src id states) [] tt
                        (Yields-transition_step src id states))
                      λ transitions valid. Yields-then p.Float _ _ _ (
                        Yields-return p.Float _ _
                          (record { initial_in = inside; transitions_in = valid }, fresh))))))))
