-- ===== src/Ddl/Ends.antt =====
-- The parsers of ddl/parser.rs end, one by one, by the rules of Total: those that the blocks share.
pub mod Signals
pub mod Reactions
pub mod Documents
use sig_topo.Base.{ℕ, String, ◌≡◌, refl, Bool, true, false, Option, none, some, List, [], ◌∷◌}
use sig_topo.Json.{Platform}
use sig_topo.Ddl.Token.{TokenKind, Token, is_eof}
use sig_topo.Ddl.Parse.{Next, again, finished, Parse, ◌>>=◌, ◌>>◌, return, repeat}
use sig_topo.Ddl.Parser.{
  peek, advance, at, fail_at, expect, expect_any_ident, expect_name, expect_keyword, optional,
  after_comma, item_step, bracketed, parse_state_list, guard_text, guard_span, parse_guard,
  parse_raw_brace_block,
}
use sig_topo.Ddl.Total.{
  Total, Taking, Steps, Total-bind, Total-then, Taking-bind, Taking-then, Taking-after,
  Taking-then_after, Total-of_Taking, Total-return, Total-if, Taking-fail, Taking-if, Total-peek,
  Total-advance, Total-at, Taking-expect, Taking-expect_any_ident, Steps-of_Taking, Steps-finished,
  Steps-if, Steps-after, Steps-then_after, Total-repeat,
}
use sig_topo.Ddl.Texts.{Total-guard_text, Taking-parse_raw_brace_block}

pub ruleset total = (
  Total-bind, Total-then, Total-return, Total-if, Total-peek, Total-advance, Total-at,
  Total-of_Taking, Total-repeat,
)

-- A block that begins with a keyword.
pub ruleset block = (Taking-then, Taking-bind, Total-then, Total-bind, Total-return, Total-repeat)

pub ruleset taking = (
  Taking-bind, Taking-then, Taking-after, Taking-then_after, Taking-fail, Taking-if, Taking-expect,
  Taking-expect_any_ident,
)

pub ruleset steps = (Steps-finished, Steps-of_Taking, Steps-if, Steps-after, Steps-then_after)

module _ (p : Platform) (src : String) where
  pub Taking-expect_name : Taking p src (expect_name p)
  unfolding expect_name
  Taking-expect_name = search (taking, total) depth 20 fits 2000

  pub Taking-expect_keyword :
      (kind : TokenKind p.Float) → is_eof kind ≡ false → Taking p src (expect_keyword p kind)
  unfolding expect_keyword
  Taking-expect_keyword kind h = search (taking, total) depth 20 fits 2000

  pub Total-expect_any_ident : Total p src (expect_any_ident p)
  Total-expect_any_ident = Total-of_Taking p src _ (Taking-expect_any_ident p src)

  pub Total-expect_name : Total p src (expect_name p)
  Total-expect_name = Total-of_Taking p src _ Taking-expect_name

  pub Total-expect_keyword :
      (kind : TokenKind p.Float) → is_eof kind ≡ false → Total p src (expect_keyword p kind)
  Total-expect_keyword kind h = Total-of_Taking p src _ (Taking-expect_keyword kind h)

  pub Total-optional :
      {A : Type 0} (kind : TokenKind p.Float) (a : A) (m : Parse p.Float A)
      → Total p src m
      → Total p src (optional p kind a m)
  unfolding optional
  Total-optional kind a m h = search (total) depth 20 fits 2000

  pub Steps-item_step :
      {A : Type 0} (close : TokenKind p.Float) (item : Parse p.Float A) (xs : List A)
      → Taking p src item
      → Steps p src (item_step p close item xs)
  unfolding item_step after_comma
  Steps-item_step close item xs h = search (steps, taking, total) depth 30 fits 2000

  pub Taking-bracketed :
      {A : Type 0} (first close : TokenKind p.Float) (item : Parse p.Float A)
      → is_eof first ≡ false
      → is_eof close ≡ false
      → Taking p src item
      → Taking p src (bracketed p first close item)
  unfolding bracketed
  Taking-bracketed first close item h k t =
      search (taking, total, Taking-expect_keyword, Steps-item_step) depth 30 fits 2000

  pub Taking-parse_state_list : Taking p src (parse_state_list p)
  unfolding parse_state_list
  Taking-parse_state_list =
      Taking-bracketed TokenKind.lbracket TokenKind.rbracket (expect_name p) refl refl
        Taking-expect_name

  pub Total-parse_state_list : Total p src (parse_state_list p)
  Total-parse_state_list = Total-of_Taking p src _ Taking-parse_state_list

  pub Taking-guard_span : Taking p src (guard_span p src)
  unfolding guard_span
  Taking-guard_span =
      Taking-then _ _ _ _ (Taking-expect_keyword TokenKind.when refl) (Total-guard_text p src)

  pub Taking-parse_guard : Taking p src (parse_guard p src)
  unfolding parse_guard
  Taking-parse_guard = search (taking, total, Taking-guard_span) depth 10 fits 2000
