-- ===== src/Engine/Relations.antt =====
-- How an engine may change: not at all but for quiet events (`IsStill`), or by commits (`Refines`).
use sig_topo.Base.{
  ◌≡◌, refl, sym, ap, subst, ◌∙◌, List, [], ◌∷◌, ◌++◌, append_assoc, append-nil, All,
}
use sig_topo.Json.{Platform}
use sig_topo.Trace.{TraceEvent}
use sig_topo.Engine.State.{Engine}
use sig_topo.Engine.Holds.{IsPreorder}
use sig_topo.Engine.Commits.{Commits, IsQuiet, Commits-append, Commits-quiet}

trace_trans :
    (a : List TraceEvent) {b c : List TraceEvent} (x y : List TraceEvent)
    → b ≡ a ++ x
    → c ≡ b ++ y
    → c ≡ a ++ (x ++ y)
trace_trans a x y h k = k ∙ ap (λ b. b ++ y) h ∙ append_assoc a x y

All-append : (xs ys : List TraceEvent) → All IsQuiet xs → All IsQuiet ys → All IsQuiet (xs ++ ys)
All-append [] ys h k = k
All-append (x ∷ xs) ys h k = (h.0, All-append xs ys h.1 k)

module _ {p : Platform} where
  -- The topology, the actions and the depth limit are left alone.
  pub record IsFixed (e e' : Engine p) : Type 0 where
    pub transitions : e'.transitions ≡ e.transitions
    pub reactions : e'.reactions ≡ e.reactions
    pub actions : e'.actions ≡ e.actions
    pub max_cascade_depth : e'.max_cascade_depth ≡ e.max_cascade_depth

  -- No signal moves, and what is added to the trace tells of no commit.
  pub record IsStill (e e' : Engine p) : Type 0 where
    pub fixed : IsFixed e e'
    pub signals : e'.signals ≡ e.signals
    pub events : List TraceEvent
    pub trace : e'.trace.events ≡ e.trace.events ++ events
    pub quiet : All IsQuiet events

  -- The signals move by the commits that are added to the trace.
  pub record Refines (e e' : Engine p) : Type 0 where
    pub fixed : IsFixed e e'
    pub events : List TraceEvent
    pub trace : e'.trace.events ≡ e.trace.events ++ events
    pub commits : Commits p e.transitions e.signals events e'.signals

  IsFixed-same : (e : Engine p) → IsFixed e e
  IsFixed-same e = record {
    transitions = refl;
    reactions = refl;
    actions = refl;
    max_cascade_depth = refl;
  }

  IsFixed-trans : (e f g : Engine p) → IsFixed e f → IsFixed f g → IsFixed e g
  IsFixed-trans e f g h k = record {
    transitions = k.transitions ∙ h.transitions;
    reactions = k.reactions ∙ h.reactions;
    actions = k.actions ∙ h.actions;
    max_cascade_depth = k.max_cascade_depth ∙ h.max_cascade_depth;
  }

  pub IsStill-preorder : IsPreorder IsStill
  IsStill-preorder = record {
    same = λ e. record {
      fixed = IsFixed-same e;
      signals = refl;
      events = [];
      trace = sym (append-nil e.trace.events);
      quiet = tt;
    };
    trans = λ e f g h k. record {
      fixed = IsFixed-trans e f g h.fixed k.fixed;
      signals = k.signals ∙ h.signals;
      events = h.events ++ k.events;
      trace = trace_trans e.trace.events h.events k.events h.trace k.trace;
      quiet = All-append h.events k.events h.quiet k.quiet;
    };
  }

  pub Refines-preorder : IsPreorder Refines
  Refines-preorder = record {
    same = λ e. record {
      fixed = IsFixed-same e;
      events = [];
      trace = sym (append-nil e.trace.events);
      commits = Commits.done;
    };
    trans = λ e f g h k. record {
      fixed = IsFixed-trans e f g h.fixed k.fixed;
      events = h.events ++ k.events;
      trace = trace_trans e.trace.events h.events k.events h.trace k.trace;
      commits =
          Commits-append h.commits
            (subst (λ ts. Commits p ts f.signals k.events g.signals) h.fixed.transitions k.commits);
    };
  }

  pub Refines-of_IsStill : (e e' : Engine p) → IsStill e e' → Refines e e'
  Refines-of_IsStill e e' h = record {
    fixed = h.fixed;
    events = h.events;
    trace = h.trace;
    commits =
        subst (λ m. Commits p e.transitions e.signals h.events m) (sym h.signals)
          (Commits-quiet h.events h.quiet);
  }
