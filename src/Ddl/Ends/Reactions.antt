-- ===== src/Ddl/Ends/Reactions.antt =====
-- The parsers of `reaction`, `fork`, `join` and `guard` blocks end.
use sig_topo.Base.{ℕ, String, ◌≡◌, refl, false, List}
use sig_topo.Json.{Platform}
use sig_topo.Ddl.Parser.Reactions.{
  RawReaction, on_fail_clause, at_reaction_head, parse_guard_spec, reaction_guard, reaction_payload,
  parse_reaction_body, parse_reaction_raw, member_step, parse_fork_block, parse_join_block,
  parse_guard_decl,
}
use sig_topo.Ddl.Total.{Total, Taking, Steps}
use sig_topo.Ddl.Texts.{Taking-parse_raw_brace_block}
use sig_topo.Ddl.Ends.{
  total, taking, steps, block, Total-expect_name, Total-expect_keyword, Taking-expect_name,
  Taking-expect_keyword, Total-optional, Taking-guard_span,
}
use sig_topo.Ddl.Ends.Signals.{Taking-expect_fresh}

module _ (p : Platform) (src : String) where
  Total-at_reaction_head : Total p src (at_reaction_head p)
  unfolding Total at_reaction_head
  Total-at_reaction_head n ts l s = (l, s)

  Taking-parse_guard_spec : Taking p src (parse_guard_spec p src)
  unfolding parse_guard_spec
  Taking-parse_guard_spec = search (taking, total, Taking-guard_span) depth 20 fits 2000

  Total-reaction_guard : Total p src (reaction_guard p src)
  unfolding reaction_guard
  Total-reaction_guard =
      search (total, Total-at_reaction_head, Taking-parse_guard_spec) depth 20 fits 2000

  Total-reaction_payload : Total p src (reaction_payload p src)
  unfolding reaction_payload
  Total-reaction_payload =
      let keyword : false ≡ false = refl in
      search (total, Taking-expect_keyword, Taking-parse_raw_brace_block, Total-optional) depth 20
        fits 2000

  Total-on_fail_clause : Total p src (on_fail_clause p)
  Total-on_fail_clause =
      let keyword : false ≡ false = refl in
      search (total, Taking-expect_name, Taking-expect_keyword) depth 20 fits 2000

  Taking-parse_reaction_body : Taking p src (parse_reaction_body p src)
  unfolding parse_reaction_body
  Taking-parse_reaction_body =
      let keyword : false ≡ false = refl in
      search
        (
          block, Taking-expect_keyword, Total-expect_name, Total-expect_keyword, Total-optional,
          Total-on_fail_clause, Total-reaction_guard, Total-reaction_payload,
        )
        depth 40 fits 4000

  pub Taking-parse_reaction_raw : Taking p src (parse_reaction_raw p src)
  unfolding parse_reaction_raw
  Taking-parse_reaction_raw =
      let keyword : false ≡ false = refl in
      search (taking, total, Taking-expect_keyword, Taking-parse_reaction_body) depth 20 fits 2000

  Steps-member_step :
      (tagged : RawReaction → RawReaction) (rs : List RawReaction)
      → Steps p src (member_step p src tagged rs)
  unfolding member_step
  Steps-member_step tagged rs =
      search (steps, taking, total, Taking-parse_reaction_body) depth 20 fits 2000

  pub Taking-parse_fork_block : (n : ℕ) → Taking p src (parse_fork_block p src n)
  unfolding parse_fork_block
  Taking-parse_fork_block n =
      let keyword : false ≡ false = refl in
      search (taking, total, Taking-expect_keyword, Steps-member_step) depth 30 fits 2000

  pub Taking-parse_join_block : Taking p src (parse_join_block p src)
  unfolding parse_join_block
  Taking-parse_join_block =
      let keyword : false ≡ false = refl in
      search (taking, total, Taking-expect_name, Taking-expect_keyword, Steps-member_step) depth 30
        fits 2000

  pub Taking-parse_guard_decl : (seen : List String) → Taking p src (parse_guard_decl p src seen)
  unfolding parse_guard_decl
  Taking-parse_guard_decl seen =
      let keyword : false ≡ false = refl in
      search
        (taking, total, Taking-expect_keyword, Taking-expect_fresh, Taking-parse_raw_brace_block)
        depth 30 fits 2000
