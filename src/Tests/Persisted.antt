-- ===== src/Tests/Persisted.antt =====
-- The theorems on saving, loading and reloading, at the shop of the samples.
use sig_topo.Base.{
  String, ◌≡◌, refl, some, none, [], ◌∷◌, Result, ok, err, lookup, insert, All, find, true,
  contains, subst, ok_inj, Bool-cases, ◌==◌, inl, inr,
}
use sig_topo.Base.Int.{ℤ}
use sig_topo.Error.{state_not_found, reload_error}
use sig_topo.Schema.{TopologySchema}
use sig_topo.Engine.State.{Engine, SignalState}
use sig_topo.Engine.Send.{send_event}
use sig_topo.Engine.Build.{from_schema, reload_topology}
use sig_topo.Engine.WellFormed.{IsWellFormed}
use sig_topo.Engine.Built.{from_schema-IsWellFormed}
use sig_topo.Engine.Reloaded.{
  Retains, IsReloaded, reload_topology-fails, reload_topology-IsWellFormed, reload_topology-keeps,
}
use sig_topo.Persist.{StateSnapshot, save_state, load_state}
use sig_topo.Persist.Restores.{IsDistinct, IsAlike, load_state-save}
use sig_topo.Persist.Keeps.{load_state-send_event, load_state-IsWellFormed, load_state-fails}
use sig_topo.Samples.{platform, shop, shop_engine, succeed, order_signal, stock_signal, state_of}

abbrev loaded : Engine platform
loaded = record (shop_engine succeed) { actions = [] }

built_shop : from_schema platform 0 0 shop ≡ ok loaded
unfolding from_schema insert
built_shop = refl

loaded-IsWellFormed : IsWellFormed loaded
loaded-IsWellFormed = from_schema-IsWellFormed platform 0 0 shop loaded built_shop

loaded-IsDistinct : IsDistinct loaded.signals
unfolding lookup
loaded-IsDistinct = (refl, (refl, tt))

-- The same signals, elsewhere.
abbrev held : Engine platform
held = record loaded {
  signals = ("order", state_of order_signal "paid") ∷ ("stock", state_of stock_signal "held") ∷ [];
}

held-IsAlike : IsAlike loaded.signals held.signals
unfolding lookup
held-IsAlike sid = elim (Bool-cases ("order" == sid)) [
  | inl order ↦ rw order refl
  | inr other ↦ elim (Bool-cases ("stock" == sid)) [
    | inl stock ↦ rw (other, stock) refl
    | inr neither ↦ rw (other, neither) refl
  ]
]

load_state-save_example :
    let r = load_state (ok (save_state loaded)) held in
    (r.0 ≡ ok tt)
    × (r.1 ≡ record held { signals = r.1.signals })
    × ((sid : String) → lookup sid r.1.signals ≡ lookup sid loaded.signals)
load_state-save_example =
    load_state-save loaded held loaded-IsDistinct loaded-IsWellFormed.placed held-IsAlike

load_state-send_event_example :
    let r = load_state (ok (save_state loaded)) (send_event "stock" "reserve" none loaded).1 in
    (r.0 ≡ ok tt) × ((k : String) → lookup k r.1.signals ≡ lookup k loaded.signals)
load_state-send_event_example =
    load_state-send_event "stock" "reserve" none loaded loaded-IsDistinct loaded-IsWellFormed.placed

load_state-IsWellFormed_example : IsWellFormed (load_state (ok (save_state held)) loaded).1
load_state-IsWellFormed_example =
    load_state-IsWellFormed (ok (save_state held)) loaded loaded-IsWellFormed

abbrev bad_snapshot : StateSnapshot
bad_snapshot = record { states = ("order", "paid") ∷ ("stock", "gone") ∷ [] }

bad_load : (load_state (ok bad_snapshot) loaded).0 ≡ err (state_not_found "stock" "gone")
unfolding load_state lookup
bad_load = refl

load_state-fails_example : (load_state (ok bad_snapshot) loaded).1 ≡ loaded
load_state-fails_example =
    load_state-fails (ok bad_snapshot) loaded (state_not_found "stock" "gone") bad_load

-- The shop with a state more.
abbrev grown : TopologySchema ℤ
grown = record shop {
  signals = order_signal ∷ record stock_signal { states = "sold" ∷ "held" ∷ "free" ∷ [] } ∷ [];
}

grown_reload : (reload_topology platform (ok grown) held).0 ≡ ok tt
unfolding reload_topology
grown_reload = refl

reload_topology-keeps_example :
    let e' = (reload_topology platform (ok grown) held).1 in
    IsReloaded
      (find (λ sig. sig.id == "stock") grown.signals)
      (lookup "stock" held.signals)
      (lookup "stock" e'.signals)
    × (e' ≡ record held {
      signals = e'.signals;
      transitions = grown.transitions;
      reactions = grown.reactions;
    })
reload_topology-keeps_example = reload_topology-keeps platform grown held "stock" grown_reload

grown-Retains :
    (schema : TopologySchema ℤ)
    → ◌≡◌ {A = Result String (TopologySchema ℤ)} (ok grown) (ok schema)
    → All (Retains loaded.signals) schema.signals
unfolding lookup
grown-Retains schema h =
    subst (λ (s : TopologySchema ℤ). All (Retains loaded.signals) s.signals) (ok_inj h)
      (
        λ s at.
            let same : state_of order_signal "draft" ≡ s = cc at in
            subst (λ (u : SignalState). contains u.current order_signal.states ≡ true) same refl,
        (
          λ s at.
              let same : state_of stock_signal "free" ≡ s = cc at in
              subst (λ (u : SignalState). contains u.current ("sold" ∷ "held" ∷ "free" ∷ []) ≡ true)
                same refl,
          tt,
        ),
      )

reload_topology-IsWellFormed_example : IsWellFormed (reload_topology platform (ok grown) loaded).1
reload_topology-IsWellFormed_example =
    reload_topology-IsWellFormed platform (ok grown) loaded loaded-IsWellFormed grown-Retains

-- The stock starts in a state that it does not have.
abbrev broken : TopologySchema ℤ
broken = record shop { signals = record stock_signal { initial_state = "gone" } ∷ [] }

broken_reload :
    (reload_topology platform (ok broken) held).0
    ≡ err (reload_error "Validation error: Invalid initial_state 'gone' for signal 'stock'")
unfolding reload_topology
broken_reload = refl

reload_topology-fails_example : (reload_topology platform (ok broken) held).1 ≡ held
reload_topology-fails_example = reload_topology-fails platform (ok broken) held _ broken_reload

-- A topology that drops a current state is accepted, and the signal stays in it.
abbrev dropped : TopologySchema ℤ
dropped = record shop {
  signals = record stock_signal { states = "free" ∷ [] } ∷ [];
  transitions = [];
  reactions = [];
}

dropped_reload : (reload_topology platform (ok dropped) held).0 ≡ ok tt
unfolding reload_topology
dropped_reload = refl

dropped_state :
    lookup "stock" (reload_topology platform (ok dropped) held).1.signals
    ≡ some (record { current = "held"; states = "free" ∷ []; initial_state = "free" })
unfolding reload_topology lookup insert
dropped_state = refl
