-- ===== src/Ddl/Compile.antt =====
-- ddl/mod.rs: `compile` and `compile_full` on the text of a document. `none` is a panic, or a loop
-- that does not end, of the parser.
use mathlib.Core.Option
use sig_topo.Base.{String, Option, Result, ok, and_then, map_err}
use sig_topo.Json.{Platform, Json}
use sig_topo.Error.{EngineError, parse_error}
use sig_topo.Schema.{TopologySchema}
use sig_topo.Compose.Expand.{expand}
use sig_topo.Ddl.Ast.{DdlDoc}
use sig_topo.Ddl.Codegen.{emit, compile}
use sig_topo.Ddl.Parser.Doc.{parse_source}

module _ (p : Platform) (parse_json : String → Result String (Json p.Number)) where
  unfoldable pub compile_source : String → Option (Result EngineError (TopologySchema p.Number))
  unfolding parse_source compile
  compile_source src = Option.map (compile parse_json) (parse_source p src)

  -- The schema, and the document that was parsed.
  unfoldable pub compile_doc : DdlDoc → Result EngineError (TopologySchema p.Number × DdlDoc)
  unfolding emit expand
  compile_doc doc =
      and_then (emit parse_json doc) λ schema. and_then (expand schema) λ flat. ok (flat, doc)

  abbrev pub compile_parsed :
      Result String DdlDoc → Result EngineError (TopologySchema p.Number × DdlDoc)
  compile_parsed parsed = and_then (map_err parse_error parsed) compile_doc

  unfoldable pub compile_full :
      String → Option (Result EngineError (TopologySchema p.Number × DdlDoc))
  unfolding parse_source compile_doc
  compile_full src = Option.map compile_parsed (parse_source p src)
