-- ===== src/Tests/Guards.antt =====
-- The theorems on the guard language, at a guard.
use sig_topo.Base.{String, none, err, ◌≡◌, refl, some, [], ◌∷◌, length, List, Result, ok, arith}
use sig_topo.Base.Text.{chars}
use sig_topo.Base.Int.{ℤ, pos}
use sig_topo.Guard.Token.{Token}
use sig_topo.Json.{number, object, field, no_fields}
use sig_topo.Context.{ActionContext}
use sig_topo.Guard.Ast.{Expr, BinaryOp, Literal, binary, literal, payload_access}
use sig_topo.Guard.Eval.{eval}
use sig_topo.Guard.Range.{As64, checked-IsI64}
use sig_topo.Guard.Exact.{IsExact, eval-IsExact}
use sig_topo.Guard.Lexer.{tokens_from, tokenize}
use sig_topo.Guard.Parser.{parse}
use sig_topo.Guard.Lexes.{tokenize-fuel}
use sig_topo.Guard.Terminates.{parse-returns}
use sig_topo.Samples.{platform}

abbrev guard : String
guard = "payload.n <= 10"

abbrev guard_tokens : List (Token ℤ)
guard_tokens =
    Token.identifier "payload"
    ∷ Token.dot
    ∷ Token.identifier "n"
    ∷ Token.lte
    ∷ Token.integer (pos 10)
    ∷ Token.eof
    ∷ []

guard_tokenize : tokenize platform guard ≡ ok guard_tokens
unfolding tokenize
guard_tokenize = refl

parse-returns_example : (r : Result String (Expr ℤ)) × (parse platform guard_tokens ≡ some r)
parse-returns_example = parse-returns platform guard guard_tokens guard_tokenize

chars_guard : length (chars guard) ≡ 15
unfolding chars
chars_guard = refl

tokenize-fuel_example : tokenize platform guard ≡ tokens_from platform 20 (chars guard)
tokenize-fuel_example = tokenize-fuel platform guard 20 (omega (arith, chars_guard))

abbrev sum : Expr ℤ
sum = binary (payload_access ("n" ∷ [])) BinaryOp.add (literal (Literal.integer (pos 5)))

abbrev at_most_64 : As64 platform
at_most_64 n i h = checked-IsI64 n i h

abbrev sum_context : ActionContext platform
sum_context = record {
  signal_id = "order";
  from_state = "draft";
  to_state = "paid";
  event = "pay";
  payload = some (object (field "n" (number (pos 9223372036854775806)) no_fields));
  failure = none;
}

eval-IsExact_example : IsExact platform sum_context sum
eval-IsExact_example = eval-IsExact platform sum_context sum at_most_64 (tt, omega arith)

sum_overflow : eval platform sum sum_context ≡ err "Integer overflow"
unfolding eval
sum_overflow = refl
