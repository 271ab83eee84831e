-- ===== src/Tests/Documents.antt =====
-- The front end of ddl/ on small documents, and its theorems at them.
use Prim.Native.String.{◌++◌}
use sig_topo.Base.{String, ◌≡◌, refl, none, some, [], ◌∷◌, List, Result, ok, err, arith}
use sig_topo.Base.Text.{chars}
use sig_topo.Base.Int.{ℤ}
use sig_topo.Json.{Json}
use sig_topo.Schema.{TopologySchema}
use sig_topo.Engine.State.{Engine}
use sig_topo.Engine.Build.{from_schema}
use sig_topo.Ddl.Token.{TokenKind, Token}
use sig_topo.Ddl.Lexer.{tokenize, tokens_from, begin}
use sig_topo.Ddl.Laid.{Laid, tokenize-Laid, tokenize_rounds}
use sig_topo.Ddl.Ast.{TransDecl, ReactionDecl, DdlDoc}
use sig_topo.Ddl.Parse.{◌>>=◌, ◌>>◌}
use sig_topo.Ddl.Parser.Signals.{default_actions}
use sig_topo.Ddl.Parser.Doc.{parse_source}
use sig_topo.Ddl.Ends.Documents.{parse_source-returns}
use sig_topo.Ddl.Parsed.{IsDocument}
use sig_topo.Ddl.Parsed.Documents.{parse_source-IsDocument}
use sig_topo.Ddl.Compile.{compile_full}
use sig_topo.Ddl.Builds.{compile_full-from_schema}
use sig_topo.Samples.{platform, decimal, plain_transition, plain_reaction}

abbrev door_text : String
door_text =
    "// a door\n" ++ "signal door {\n" ++ "  states: [shut, open,]\n" ++ "  initial: shut\n"
    ++ "  on push from shut -> open when payload.force >= 10 { on_enter: ring, log }\n"
    ++ "  on pull from * -> shut\n" ++ "}\n" ++ "guard late { hour > 20 }\n"
    ++ "fork { when door enters open -> lamp glow }\n"
    ++ "join fork0 { when lamp enters lit -> fan start when late with { \"speed\": 2 } }\n"

abbrev push_decl : TransDecl
push_decl = record {
  event = "push";
  from = "shut";
  to = "open";
  guard = some "payload.force >= 10";
  actions = record { on_exit = []; on_transition = []; on_enter = "ring" ∷ "log" ∷ [] };
}

abbrev pull_decl : TransDecl
pull_decl = record {
  event = "pull";
  from = "*";
  to = "shut";
  guard = none;
  actions = default_actions;
}

abbrev forked : ReactionDecl
forked = record {
  from_signal = "door";
  from_state = "open";
  to_signal = "lamp";
  event = "glow";
  guard = none;
  guard_ref = none;
  payload = none;
  join_group = some "fork0";
  requires = [];
  on_fail = none;
}

abbrev joined : ReactionDecl
joined = record {
  from_signal = "lamp";
  from_state = "lit";
  to_signal = "fan";
  event = "start";
  guard = some "hour > 20";
  guard_ref = some "late";
  payload = some "{ \"speed\": 2 }";
  join_group = none;
  requires = "fork0" ∷ [];
  on_fail = none;
}

abbrev door_doc : DdlDoc
door_doc = record {
  signals =
      record {
        id = "door";
        states = "shut" ∷ "open" ∷ [];
        initial = "shut";
        transitions = push_decl ∷ pull_decl ∷ [];
      }
      ∷ [];
  reactions = forked ∷ joined ∷ [];
  guards = record { id = "late"; expr = "hour > 20" } ∷ [];
  components = [];
  instantiates = [];
}

door_parsed : parse_source platform door_text ≡ some (ok door_doc)
unfolding parse_source ◌>>=◌ ◌>>◌ decimal
door_parsed = refl

-- `on` is a keyword, and no name of an event.
keyword_event :
    parse_source platform "reaction { when a enters b -> c on }"
    ≡ some (err "line 1 col 33: expected identifier, found On")
unfolding parse_source ◌>>=◌ ◌>>◌ decimal
keyword_event = refl

unknown_group :
    parse_source platform "join fork3 { }"
    ≡ some (err "join references undefined fork group 'fork3' (available groups: )")
unfolding parse_source ◌>>=◌ ◌>>◌ decimal
unknown_group = refl

unfinished_payload :
    parse_source platform "reaction { when a enters b -> c d with { \"x\": {"
    ≡ some (err "line 1 col 48: unterminated 'with' payload block")
unfolding parse_source ◌>>=◌ ◌>>◌ decimal
unfinished_payload = refl

two_points : tokenize platform "a 1.2.3" ≡ err "line 1 col 3: number with multiple decimal points"
unfolding tokenize decimal
two_points = refl

parse_source-returns_example :
    (r : Result String DdlDoc) × (parse_source platform door_text ≡ some r)
parse_source-returns_example = parse_source-returns platform door_text

parse_source-IsDocument_example : IsDocument door_doc
parse_source-IsDocument_example = parse_source-IsDocument platform door_text door_doc door_parsed

abbrev arrow_tokens : List (Token ℤ)
arrow_tokens =
    record { kind = TokenKind.identifier "a"; line = 1; col = 1; start = 0; len = 1 }
    ∷ record { kind = TokenKind.arrow; line = 2; col = 2; start = 3; len = 2 }
    ∷ record { kind = TokenKind.eof; line = 2; col = 4; start = 5; len = 0 }
    ∷ []

arrow_lexed : tokenize platform "a\n ->" ≡ ok arrow_tokens
unfolding tokenize
arrow_lexed = refl

tokenize-Laid_example : Laid "a\n ->" 0 arrow_tokens
tokenize-Laid_example = tokenize-Laid platform "a\n ->" arrow_tokens arrow_lexed

tokenize_rounds_example :
    tokenize platform "a\n ->" ≡ tokens_from platform 40 begin (chars "a\n ->")
tokenize_rounds_example = tokenize_rounds platform "a\n ->" 40 (unfold chars in omega arith)

-- The end of input starts at the number of characters; the source has five bytes.
eof_start :
    tokenize platform "// é"
    ≡ ok (record { kind = TokenKind.eof; line = 1; col = 1; start = 4; len = 0 } ∷ [])
unfolding tokenize
eof_start = refl

abbrev lamp_text : String
lamp_text =
    "signal lamp { states: [off, lit] initial: off on flip from * -> lit }"
    ++ " reaction { when lamp enters lit -> lamp flip }"

abbrev lamp_doc : DdlDoc
lamp_doc = record {
  signals =
      record {
        id = "lamp";
        states = "off" ∷ "lit" ∷ [];
        initial = "off";
        transitions = record pull_decl { event = "flip"; to = "lit" } ∷ [];
      }
      ∷ [];
  reactions =
      record forked {
        from_signal = "lamp";
        from_state = "lit";
        to_signal = "lamp";
        event = "flip";
        join_group = none;
      }
      ∷ [];
  guards = [];
  components = [];
  instantiates = [];
}

abbrev lamp_schema : TopologySchema ℤ
lamp_schema = record {
  version = "0.1";
  signals = record { id = "lamp"; initial_state = "off"; states = "off" ∷ "lit" ∷ [] } ∷ [];
  transitions =
      plain_transition "lamp" "off" "flip" "lit" ∷ plain_transition "lamp" "lit" "flip" "lit" ∷ [];
  reactions = plain_reaction "lamp" "lit" "lamp" "flip" ∷ [];
  components = none;
  instances = [];
  includes = [];
}

abbrev no_json : String → Result String (Json ℤ)
no_json s = err "no JSON"

lamp_compiled : compile_full platform no_json lamp_text ≡ some (ok (lamp_schema, lamp_doc))
unfolding compile_full ◌>>=◌ ◌>>◌
lamp_compiled = refl

compile_full-from_schema_example :
    (e : Engine platform) × (from_schema platform 0 0 lamp_schema ≡ ok e)
compile_full-from_schema_example =
    compile_full-from_schema platform no_json 0 0 lamp_text lamp_doc lamp_schema lamp_compiled refl
      ((refl, refl), tt)
