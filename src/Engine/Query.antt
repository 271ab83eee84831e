-- ===== src/Engine/Query.antt =====
-- What callers read off an engine.
use sig_topo.Base.{
  String, Bool, Option, none, some, List, [], ◌∷◌, ◌++◌, map, lookup, if◌then◌else◌, ◌==◌, ◌&&◌,
  Ordering, Result, ok_or,
}
use Prim.Native.String.{compare}
use sig_topo.Json.{Platform}
use sig_topo.Error.{EngineError, signal_not_found}
use sig_topo.Schema.{TransitionDef, all_actions}
use sig_topo.Trace.{TraceEvent, reaction_guard_evaluated, for_signal, clear}
use sig_topo.Engine.State.{Engine}
use mathlib.Core.Option

module _ {p : Platform} where
  unfoldable pub get_state : String → Engine p → Result EngineError String
  get_state signal_id e =
      ok_or (Option.map (λ s. s.current) (lookup signal_id e.signals)) (signal_not_found signal_id)

  unfoldable pub signal_ids : Engine p → List String
  signal_ids e = map (λ entry. entry.0) e.signals

  unfoldable pub traces : Engine p → List TraceEvent
  traces e = e.trace.events

  unfoldable pub traces_for : String → Engine p → List TraceEvent
  unfolding for_signal
  traces_for signal_id e = for_signal e.trace signal_id

  unfoldable pub clear_traces : Engine p → Engine p
  unfolding clear
  clear_traces e = record e { trace = clear e.trace }

-- `sort` and `dedup` on texts: the sorted list without repetitions.
unfoldable pub sorted_insert : String → List String → List String
sorted_insert s [] = s ∷ []
sorted_insert s (x ∷ xs) =
    let later = x ∷ sorted_insert s xs in
    elim (compare s x) [ Ordering.lt ↦ s ∷ x ∷ xs | Ordering.eq ↦ x ∷ xs | Ordering.gt ↦ later ]

unfoldable pub sort_dedup : List String → List String
unfolding sorted_insert
sort_dedup [] = []
sort_dedup (s ∷ ids) = sorted_insert s (sort_dedup ids)

abbrev pub all_action_ids : List TransitionDef → List String
all_action_ids [] = []
all_action_ids (t ∷ ts) = all_actions t.actions ++ all_action_ids ts

unfoldable pub action_ids : {p : Platform} → Engine p → List String
unfolding all_actions sort_dedup
action_ids e = sort_dedup (all_action_ids e.transitions)

-- The keys of the map that `guard_info_from_traces` returns.
pub record ReactionKey : Type 0 where
  pub from_signal : String
  pub from_state : String
  pub to_signal : String
  pub event : String

abbrev pub same_key : ReactionKey → ReactionKey → Bool
same_key a b =
    a.from_signal == b.from_signal
    && (a.from_state == b.from_state && (a.to_signal == b.to_signal && a.event == b.event))

unfoldable pub insert_key :
    ReactionKey → String → List (ReactionKey × String) → List (ReactionKey × String)
insert_key k v [] = (k, v) ∷ []
insert_key k v ((j, w) ∷ m) =
    let rest = insert_key k v m in if same_key j k then (k, v) ∷ m else (j, w) ∷ rest

unfoldable pub lookup_key : ReactionKey → List (ReactionKey × String) → Option String
lookup_key k [] = none
lookup_key k ((j, v) ∷ m) = if same_key j k then some v else lookup_key k m

-- The last result of each reaction stays.
unfoldable pub guard_info_from :
    List TraceEvent → List (ReactionKey × String) → List (ReactionKey × String)
unfolding insert_key
guard_info_from [] m = m
guard_info_from
      (reaction_guard_evaluated _ from_signal from_state to_signal event _ result _ ∷ events) m =
    guard_info_from events (
      insert_key
        (record {
          from_signal = from_signal;
          from_state = from_state;
          to_signal = to_signal;
          event = event;
        })
        result m)
guard_info_from (_ ∷ events) m = guard_info_from events m

unfoldable pub guard_info_from_traces : List TraceEvent → List (ReactionKey × String)
unfolding guard_info_from
guard_info_from_traces events = guard_info_from events []
