-- ===== src/Ddl/Builds.antt =====
-- From the text of a document to an engine: what the front end accepts, the engine accepts.
use sig_topo.Base.{
  ℕ, ◌+◌, String, ◌≡◌, refl, sym, ap, subst, ◌∙◌, inl, inr, some, List, [], ◌∷◌, map, All, eq_iff,
  arith, Option-cases, Result-cases, Result, ok, and_then-eq-ok, ok_inj,
}
use sig_topo.Json.{Platform, Json}
use sig_topo.Schema.{SignalDef, TransitionDef, ReactionDef, TopologySchema}
use sig_topo.Compose.Expand.{expand_with, expand}
use sig_topo.Engine.State.{Engine}
use sig_topo.Engine.Validate.{
  validate_transition, validate_transitions, validate_reaction, validate_reactions, validate,
}
use sig_topo.Engine.Build.{initial_signals, from_schema}
use sig_topo.Ddl.Ast.{ReactionDecl, DdlDoc}
use sig_topo.Ddl.Codegen.{
  emit_signals, emit_payload, emit_reaction, emit_reactions, emit_components, emit_instantiate,
  emit,
}
use sig_topo.Ddl.Parser.Doc.{parse_source}
use sig_topo.Ddl.Parsed.{IsDocument}
use sig_topo.Ddl.Parsed.Documents.{parse_source-IsDocument}
use sig_topo.Ddl.Compile.{compile_doc, compile_full}
use sig_topo.Ddl.Lowered.{
  IsDeclared, ids_of, emitted_ids, validate_signals-ok, none_fresh, Fits, signals-IsFound,
  emit_signals-Fits,
}

module _ (p : Platform) where
  validate_transition-ok :
      (all : List SignalDef) (i : ℕ) (t : TransitionDef)
      → Fits all t
      → validate_transition p all i t ≡ ok tt
  unfolding validate_transition
  validate_transition-ok all i t (sig, found, inl star, to) =
      ground (arith, found, star, to, eq_iff t.from "*")
  validate_transition-ok all i t (sig, found, inr from, to) = ground (arith, found, from, to)

  validate_transitions-ok :
      (all : List SignalDef) (i : ℕ) (ts : List TransitionDef)
      → All (Fits all) ts
      → validate_transitions p all i ts ≡ ok tt
  unfolding validate_transitions
  validate_transitions-ok all i [] h = refl
  validate_transitions-ok all i (t ∷ ts) h =
      rw (validate_transition-ok all i t h.0) (validate_transitions-ok all (i + 1) ts h.1)

  module _ (parse_json : String → Result String (Json p.Number)) where
    emit_reaction_ends :
        (r : ReactionDecl) (out : ReactionDef p.Number)
        → emit_reaction parse_json r ≡ ok out
        → (out.from_signal ≡ r.from_signal) × (out.to_signal ≡ r.to_signal)
    unfolding emit_reaction
    emit_reaction_ends r out h =
        let (payload, _, made) = and_then-eq-ok (emit_payload parse_json r.payload) _ h in
        (
          ap (λ (x : ReactionDef p.Number). x.from_signal) (sym (ok_inj made)),
          ap (λ (x : ReactionDef p.Number). x.to_signal) (sym (ok_inj made)),
        )

    validate_reactions-ok :
        (ids : List String) (rs : List ReactionDecl) (out : List (ReactionDef p.Number))
        → All (λ r. IsDeclared ids r.from_signal r.to_signal) rs
        → emit_reactions parse_json rs ≡ ok out
        → validate_reactions ids out ≡ ok tt
    unfolding emit_reactions validate_reactions validate_reaction
    validate_reactions-ok ids [] out h e =
        subst (λ x. validate_reactions ids x ≡ ok tt) (ok_inj e) refl
    validate_reactions-ok ids (r ∷ rs) out h e =
        let (first, one, e') = and_then-eq-ok (emit_reaction parse_json r) _ e in
        let (rest, others, made) = and_then-eq-ok (emit_reactions parse_json rs) _ e' in
        let (from, to) = emit_reaction_ends r first one in
        let later = validate_reactions-ok ids rs rest h.1 others in
        subst (λ x. validate_reactions ids x ≡ ok tt) (ok_inj made)
          (rw (from, to, h.0.0, h.0.1) later)

    emit_parts :
        (doc : DdlDoc) (s : TopologySchema p.Number)
        → emit parse_json doc ≡ ok s
        → (s.signals ≡ (emit_signals doc.signals).0)
          × (s.transitions ≡ (emit_signals doc.signals).1)
          × (emit_reactions parse_json doc.reactions ≡ ok s.reactions)
          × (s.instances ≡ map emit_instantiate doc.instantiates)
    unfolding emit
    emit_parts doc s h =
        let (reactions, one, h') = and_then-eq-ok (emit_reactions parse_json doc.reactions) _ h in
        let (components, two, made) =
          and_then-eq-ok (emit_components parse_json doc.components []) _ h' in
        let same = ok_inj made in
        (
          ap (λ (x : TopologySchema p.Number). x.signals) (sym same),
          ap (λ (x : TopologySchema p.Number). x.transitions) (sym same),
          one ∙ ap (λ (x : TopologySchema p.Number). ok x.reactions) same,
          ap (λ (x : TopologySchema p.Number). x.instances) (sym same),
        )

    flat_expand : (s : TopologySchema p.Number) → s.instances ≡ [] → expand s ≡ ok s
    unfolding expand
    flat_expand s h = subst (λ insts. expand_with insts s ≡ ok s) (sym h) refl

    emit-validate :
        (doc : DdlDoc) (s : TopologySchema p.Number)
        → IsDocument doc
        → emit parse_json doc ≡ ok s
        → All (λ r. IsDeclared (ids_of doc.signals) r.from_signal r.to_signal) doc.reactions
        → validate p s ≡ ok tt
    unfolding validate
    emit-validate doc s valid emitted declared =
        let (signals, transitions, reactions, _) = emit_parts doc s emitted in
        let all = (emit_signals doc.signals).0 in
        let fits =
          emit_signals-Fits all doc.signals (signals-IsFound doc.signals valid.signal_ids)
            valid.signals in
        let first =
          validate_signals-ok [] doc.signals valid.signals valid.signal_ids
            (none_fresh doc.signals) in
        let last =
          validate_reactions-ok (ids_of doc.signals) doc.reactions s.reactions declared reactions in
        rw
          (
            signals,
            transitions,
            first,
            validate_transitions-ok all 0 _ fits,
            emitted_ids doc.signals,
          )
          last

    accepted_engine :
        (world : p.World) (clock_reads : ℕ) (s : TopologySchema p.Number)
        → expand s ≡ ok s
        → validate p s ≡ ok tt
        → (e : Engine p) × (from_schema p world clock_reads s ≡ ok e)
    unfolding from_schema
    accepted_engine world clock_reads s expanded valid = (
      record {
        signals = initial_signals s.signals [];
        transitions = s.transitions;
        reactions = s.reactions;
        actions = [];
        trace = record { events = [] };
        max_cascade_depth = 8;
        clock_reads = clock_reads;
        world = world;
      },
      rw (expanded, valid) refl,
    )

    compile_doc_parts :
        (doc doc' : DdlDoc) (schema : TopologySchema p.Number)
        → compile_doc p parse_json doc' ≡ ok (schema, doc)
        → (s : TopologySchema p.Number) × (emit parse_json doc' ≡ ok s)
          × (expand s ≡ ok schema)
          × (doc' ≡ doc)
    unfolding compile_doc
    compile_doc_parts doc doc' schema h =
        let (s, emitted, h') = and_then-eq-ok (emit parse_json doc') _ h in
        let (flat, expanded, made) = and_then-eq-ok (expand s) _ h' in
        let same = ok_inj made in
        (
          s,
          emitted,
          expanded ∙ ap (λ (x : TopologySchema p.Number × DdlDoc). ok x.0) same,
          ap (λ (x : TopologySchema p.Number × DdlDoc). x.1) same,
        )

    built :
        (world : p.World) (clock_reads : ℕ) (src : String) (doc' doc : DdlDoc)
        (schema : TopologySchema p.Number)
        → parse_source p src ≡ some (ok doc')
        → compile_doc p parse_json doc' ≡ ok (schema, doc)
        → doc.instantiates ≡ []
        → All (λ r. IsDeclared (ids_of doc.signals) r.from_signal r.to_signal) doc.reactions
        → (e : Engine p) × (from_schema p world clock_reads schema ≡ ok e)
    built world clock_reads src doc' doc schema parsed compiled flat declared =
        let (s, emitted', expanded, same_doc) = compile_doc_parts doc doc' schema compiled in
        let emitted : emit parse_json doc ≡ ok s = ap (emit parse_json) (sym same_doc) ∙ emitted' in
        let accepted : parse_source p src ≡ some (ok doc) =
          parsed ∙ ap (λ (d : DdlDoc). some (ok d)) same_doc in
        let instances : s.instances ≡ [] =
          (emit_parts doc s emitted).3 ∙ ap (map emit_instantiate) flat in
        let whole = flat_expand s instances in
        let same : s ≡ schema = ok_inj (sym whole ∙ expanded) in
        let valid =
          emit-validate doc s (parse_source-IsDocument p src doc accepted) emitted declared in
        subst (λ x. (e : Engine p) × (from_schema p world clock_reads x ≡ ok e)) same
          (accepted_engine world clock_reads s whole valid)

    -- A text that compiles, to a document without instances whose reactions name declared signals,
    -- compiles to a topology that the engine accepts: from_schema makes an engine of it.
    pub compile_full-from_schema :
        (world : p.World) (clock_reads : ℕ) (src : String) (doc : DdlDoc)
        (schema : TopologySchema p.Number)
        → compile_full p parse_json src ≡ some (ok (schema, doc))
        → doc.instantiates ≡ []
        → All (λ r. IsDeclared (ids_of doc.signals) r.from_signal r.to_signal) doc.reactions
        → (e : Engine p) × (from_schema p world clock_reads schema ≡ ok e)
    unfolding compile_full
    compile_full-from_schema world clock_reads src doc schema compiled flat declared =
        elim (Option-cases (parse_source p src)) [
          | inl missing ↦ absurd (cc (rw missing at compiled))
          | inr (r, parsed) ↦ elim (Result-cases r) [
            | inr (m, refused) ↦ absurd (cc (rw (parsed, refused) at compiled))
            | inl (doc', accepted) ↦
                let parsed' : parse_source p src ≡ some (ok doc') = parsed ∙ ap some accepted in
                let whole : compile_doc p parse_json doc' ≡ ok (schema, doc) =
                  cc (rw (parsed') at compiled) in
                built world clock_reads src doc' doc schema parsed' whole flat declared
          ]
        ]
