-- ===== src/Ddl/Parsed/Documents.antt =====
-- `parse_doc` accepts well-formed documents only.
use sig_topo.Base.{
  String, ◌≡◌, refl, sym, ap, subst, false, some, List, [], ◌∷◌, map, contains, All, HashMap, ok,
  and_then-eq-ok, ok_inj, Result-cases, inl, inr,
}
use sig_topo.Json.{Platform}
use sig_topo.Ddl.Token.{TokenKind, Token}
use sig_topo.Ddl.Lexer.{tokenize}
use sig_topo.Ddl.Ast.{SignalDecl, ReactionDecl, ComponentDecl, GuardDecl, DdlDoc}
use sig_topo.Ddl.Parse.{Outcome, parsed, failed, panicked, endless}
use sig_topo.Ddl.Parser.Reactions.{parse_guard_decl}
use sig_topo.Ddl.Parser.Components.{
  ComponentDeclRaw, Body, empty_body, body_item, body_step, parse_component,
}
use sig_topo.Ddl.Parser.Doc.{
  Sweep, no_sweep, doc_item, doc_step, sweep, done, check_joins, guard_map, collect,
  resolve_reaction, resolve_component, resolve, parse, parse_tokens, parse_source,
}
use sig_topo.Ddl.Yields.{
  Gives, Either, Yields, Yields-keep, Yields-bind, Yields-then, Yields-return, Yields-failed,
  Yields-repeat,
}
use sig_topo.Ddl.Parsed.{
  Distinct, IsSignal, IsResolved, IsComponent, IsDocument, Tracks, Tracks-none, Tracks-add,
  All-concat,
}
use sig_topo.Ddl.Parsed.Signals.{Yields-expect_fresh, Yields-parse_signal}
use sig_topo.Ddl.Parsed.Guards.{collect-IsResolved}

-- A component whose reactions are not resolved yet.
record IsRaw (c : ComponentDeclRaw) : Type 0 where
  signals : All IsSignal c.signals
  signal_ids : Distinct (map (λ s. s.id) c.signals)

record IsBody (b : Body) : Type 0 where
  signals : All IsSignal b.signals
  signal_ids : Tracks (λ s. s.id) b.signals b.seen_signals

record IsSweep (w : Sweep) : Type 0 where
  signals : All IsSignal w.signals
  signal_ids : Tracks (λ s. s.id) w.signals w.seen_signals
  guard_ids : Tracks (λ g. g.id) w.guards w.seen_guard_ids
  components : All IsRaw w.raw_components
  component_ids : Tracks (λ c. c.id) w.raw_components w.seen_component_ids

module _ (p : Platform) where
  Yields-parse_guard_decl :
      (src : String) (seen : List String)
      → Yields p.Float (λ g. contains g.id seen ≡ false) (parse_guard_decl p src seen)
  unfolding parse_guard_decl
  Yields-parse_guard_decl src seen = Yields-then p.Float _ _ _ (
      Yields-keep p.Float _ _ _ _ (Yields-expect_fresh p "guard" seen)
        λ id fresh. Yields-bind p.Float _ _ _ λ raw. Yields-return p.Float _ _ fresh)

  Yields-body_item :
      (src id : String) (kind : TokenKind p.Float) (t : Token p.Float) (b : Body)
      → IsBody b
      → Yields p.Float (Either IsBody IsBody) (body_item p src id kind t b)
  unfolding body_item
  Yields-body_item src id TokenKind.signal t b h =
      Yields-keep p.Float _ _ _ _ (Yields-parse_signal p src b.seen_signals) λ sig valid.
        Yields-return p.Float _ _ (record {
          signals = All-concat IsSignal b.signals sig h.signals valid.0;
          signal_ids = Tracks-add (λ s. s.id) b.signals b.seen_signals sig h.signal_ids valid.1;
        })
  Yields-body_item src id TokenKind.port t b h =
      Yields-bind p.Float _ _ _ λ port.
        Yields-return p.Float _ _ (record { signals = h.signals; signal_ids = h.signal_ids })
  Yields-body_item src id TokenKind.reaction t b h =
      Yields-bind p.Float _ _ _
        λ r. Yields-return p.Float _ _ (record { signals = h.signals; signal_ids = h.signal_ids })
  Yields-body_item src id TokenKind.rbrace t b h =
      Yields-then p.Float _ _ _ (Yields-return p.Float _ _ h)
  Yields-body_item src id _ t b h = Yields-failed p.Float _ _ λ ts. (_, refl)

  Yields-parse_component :
      (src : String) (seen : List String)
      → Yields p.Float (λ c. IsRaw c × (contains c.id seen ≡ false)) (parse_component p src seen)
  unfolding parse_component body_step
  Yields-parse_component src seen = Yields-then p.Float _ _ _ (
      Yields-keep p.Float _ _ _ _ (Yields-expect_fresh p "component" seen) λ id fresh.
        Yields-then p.Float _ _ _ (
          Yields-bind p.Float _ _ _ λ params.
            Yields-keep p.Float _ _ _ _
              (Yields-repeat p.Float IsBody IsBody (body_step p src id) empty_body
                (record { signals = tt; signal_ids = Tracks-none (λ s. s.id) })
                λ b h. Yields-bind p.Float _ _ _ λ t. Yields-body_item src id t.kind t b h)
              λ body h.
                Yields-return p.Float _ _
                  (record { signals = h.signals; signal_ids = h.signal_ids.distinct }, fresh)))

  Yields-doc_item :
      (src : String) (kind : TokenKind p.Float) (t : Token p.Float) (w : Sweep)
      → IsSweep w
      → Yields p.Float (Either IsSweep IsSweep) (doc_item p src kind t w)
  unfolding doc_item
  Yields-doc_item src TokenKind.signal t w h =
      Yields-keep p.Float _ _ _ _ (Yields-parse_signal p src w.seen_signals) λ sig valid.
        Yields-return p.Float _ _ (record {
          signals = All-concat IsSignal w.signals sig h.signals valid.0;
          signal_ids = Tracks-add (λ s. s.id) w.signals w.seen_signals sig h.signal_ids valid.1;
          guard_ids = h.guard_ids;
          components = h.components;
          component_ids = h.component_ids;
        })
  Yields-doc_item src TokenKind.guard t w h =
      Yields-keep p.Float _ _ _ _ (Yields-parse_guard_decl src w.seen_guard_ids) λ g fresh.
        Yields-return p.Float _ _ (record {
          signals = h.signals;
          signal_ids = h.signal_ids;
          guard_ids = Tracks-add (λ x. x.id) w.guards w.seen_guard_ids g h.guard_ids fresh;
          components = h.components;
          component_ids = h.component_ids;
        })
  Yields-doc_item src TokenKind.component t w h =
      Yields-keep p.Float _ _ _ _ (Yields-parse_component src w.seen_component_ids) λ c valid.
        Yields-return p.Float _ _ (record {
          signals = h.signals;
          signal_ids = h.signal_ids;
          guard_ids = h.guard_ids;
          components = All-concat IsRaw w.raw_components c h.components valid.0;
          component_ids =
              Tracks-add (λ x. x.id) w.raw_components w.seen_component_ids c h.component_ids
                valid.1;
        })
  Yields-doc_item src TokenKind.reaction t w h = Yields-bind p.Float _ _ _ λ r.
      Yields-return p.Float _ _ (record {
        signals = h.signals;
        signal_ids = h.signal_ids;
        guard_ids = h.guard_ids;
        components = h.components;
        component_ids = h.component_ids;
      })
  Yields-doc_item src TokenKind.fork t w h = Yields-bind p.Float _ _ _ λ block.
      Yields-return p.Float _ _ (record {
        signals = h.signals;
        signal_ids = h.signal_ids;
        guard_ids = h.guard_ids;
        components = h.components;
        component_ids = h.component_ids;
      })
  Yields-doc_item src TokenKind.join t w h = Yields-bind p.Float _ _ _ λ block.
      Yields-return p.Float _ _ (record {
        signals = h.signals;
        signal_ids = h.signal_ids;
        guard_ids = h.guard_ids;
        components = h.components;
        component_ids = h.component_ids;
      })
  Yields-doc_item src TokenKind.instantiate t w h = Yields-bind p.Float _ _ _ λ i.
      Yields-return p.Float _ _ (record {
        signals = h.signals;
        signal_ids = h.signal_ids;
        guard_ids = h.guard_ids;
        components = h.components;
        component_ids = h.component_ids;
      })
  Yields-doc_item src TokenKind.eof t w h = Yields-return p.Float _ _ h
  Yields-doc_item src _ t w h = Yields-failed p.Float _ _ λ ts. (_, refl)

  Yields-sweep : (src : String) → Yields p.Float IsSweep (sweep p src)
  unfolding sweep doc_step
  Yields-sweep src =
      Yields-repeat p.Float IsSweep IsSweep (doc_step p src) no_sweep
        (record {
          signals = tt;
          signal_ids = Tracks-none (λ s. s.id);
          guard_ids = Tracks-none (λ g. g.id);
          components = tt;
          component_ids = Tracks-none (λ c. c.id);
        })
        λ w h. Yields-bind p.Float _ _ _ λ t. Yields-doc_item src t.kind t w h

resolve_component_parts :
    (m : HashMap String) (raw : ComponentDeclRaw) (c : ComponentDecl)
    → resolve_component m raw ≡ ok c
    → (rs : List ReactionDecl) × (collect (resolve_reaction m) raw.raw_reactions ≡ ok rs)
      × (c.signals ≡ raw.signals)
      × (c.id ≡ raw.id)
      × (c.reactions ≡ rs)
unfolding resolve_component
resolve_component_parts m raw c h =
    let (rs, resolved, made) =
      and_then-eq-ok (collect (resolve_reaction m) raw.raw_reactions) _ h in
    let same = ok_inj made in
    (
      rs,
      resolved,
      ap (λ (x : ComponentDecl). x.signals) (sym same),
      ap (λ (x : ComponentDecl). x.id) (sym same),
      ap (λ (x : ComponentDecl). x.reactions) (sym same),
    )

components_IsComponent :
    (guards : List GuardDecl) (raws : List ComponentDeclRaw) (cs : List ComponentDecl)
    → Distinct (map (λ g. g.id) guards)
    → All IsRaw raws
    → collect (resolve_component (guard_map guards [])) raws ≡ ok cs
    → All (IsComponent guards) cs × (map (λ c. c.id) cs ≡ map (λ c. c.id) raws)
unfolding collect
components_IsComponent guards [] cs d h e =
    subst (λ (x : List ComponentDecl). All (IsComponent guards) x × (map (λ c. c.id) x ≡ []))
      (ok_inj e) (tt, refl)
components_IsComponent guards (raw ∷ raws) cs d h e =
    let (c, first, e') = and_then-eq-ok (resolve_component (guard_map guards []) raw) _ e in
    let (rest, later, made) =
      and_then-eq-ok (collect (resolve_component (guard_map guards [])) raws) _ e' in
    let (rs, resolved, signals, id, reactions) =
      resolve_component_parts (guard_map guards []) raw c first in
    let (others, ids) = components_IsComponent guards raws rest d h.1 later in
    subst
      (λ (x : List ComponentDecl).
        All (IsComponent guards) x × (map (λ k. k.id) x ≡ raw.id ∷ map (λ k. k.id) raws))
      (ok_inj made)
      (
        (
          record {
            signals = subst (All IsSignal) (sym signals) h.0.signals;
            signal_ids =
                subst (λ (x : List SignalDecl). Distinct (map (λ s. s.id) x)) (sym signals)
                  h.0.signal_ids;
            reactions =
                subst (All (IsResolved guards)) (sym reactions)
                  (collect-IsResolved guards raw.raw_reactions rs d resolved);
          },
          others,
        ),
        cc (id, ids),
      )

resolve-IsDocument : (w : Sweep) (doc : DdlDoc) → IsSweep w → resolve w ≡ ok doc → IsDocument doc
unfolding resolve
resolve-IsDocument w doc h e =
    let (_, joined, e') = and_then-eq-ok (check_joins w.fork_groups w.join_group_refs) _ e in
    let m = guard_map w.guards [] in
    let (rs, reactions, e'') = and_then-eq-ok (collect (resolve_reaction m) w.raw_reactions) _ e' in
    let (cs, components, made) =
      and_then-eq-ok (collect (resolve_component m) w.raw_components) _ e'' in
    let (valid, ids) =
      components_IsComponent w.guards w.raw_components cs h.guard_ids.distinct h.components
        components in
    subst IsDocument (ok_inj made) (record {
      signals = h.signals;
      signal_ids = h.signal_ids.distinct;
      guard_ids = h.guard_ids.distinct;
      component_ids = subst Distinct (sym ids) h.component_ids.distinct;
      reactions = collect-IsResolved w.guards w.raw_reactions rs h.guard_ids.distinct reactions;
      components = valid;
    })

module _ (p : Platform) where
  done-IsDocument :
      (o : Outcome p.Float Sweep) (doc : DdlDoc)
      → Gives p.Float IsSweep o
      → done p o ≡ some (ok doc)
      → IsDocument doc
  done-IsDocument (parsed w rest) doc h e = resolve-IsDocument w doc h (cc e)
  done-IsDocument (failed m) doc h e = absurd (cc e)
  done-IsDocument panicked doc h e = absurd (cc e)
  done-IsDocument endless doc h e = absurd (cc e)

  -- A document that the front end accepts has distinct signals, guards and components; every initial
  -- state and every end of a transition is declared, a wildcard source aside, also inside
  -- components; and a reaction whose guard was written as a reference has the text of the one guard
  -- declaration of that name.
  pub parse_source-IsDocument :
      (src : String) (doc : DdlDoc) → parse_source p src ≡ some (ok doc) → IsDocument doc
  unfolding parse_source parse Yields
  parse_source-IsDocument src doc h = elim (Result-cases (tokenize p src)) [
    | inl (tokens, lexed) ↦
        done-IsDocument (sweep p src tokens) doc (Yields-sweep p src tokens)
          (rw (lexed, parse_tokens) at h)
    | inr (m, refused) ↦ absurd (cc (rw (refused, parse_tokens) at h))
  ]
