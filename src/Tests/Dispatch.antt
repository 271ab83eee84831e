-- ===== src/Tests/Dispatch.antt =====
-- The theorems on `dispatch_reactions`, at a fork of two reactions and their join.
use sig_topo.Base.{◌≡◌, refl, String, [], ◌∷◌, List, some, none, lookup, insert, filter, not, arith}
use sig_topo.Base.Int.{ℤ}
use sig_topo.Schema.{ReactionDef}
use sig_topo.Engine.State.{Act, record_event}
use sig_topo.Engine.Queue.{dispatch_reactions-fuel}
use sig_topo.Engine.Dispatch.{dispatch_loop, is_empty, dispatch_reactions, after_fire, group_totals}
use sig_topo.Engine.Schedule.{for_each, schedule, dispatch_reactions-serial}
use sig_topo.Engine.Complete.{Schedules, dispatch_reactions-Schedules}
use sig_topo.Trace.{event_received}
use sig_topo.Samples.{platform, plain_reaction}

abbrev member : String → ReactionDef ℤ
member to = record (plain_reaction "a" "s" to "go") { join_group = some "g" }

abbrev join : ReactionDef ℤ
join = record (plain_reaction "a" "s" "d" "go") { requires = "g" ∷ [] }

-- The join stands between the members of its group.
abbrev fork : List (ReactionDef ℤ)
fork = member "b" ∷ join ∷ member "c" ∷ []

fork-schedule : schedule fork ≡ member "b" ∷ member "c" ∷ join ∷ []
unfolding schedule after_fire lookup group_totals insert
fork-schedule = refl

abbrev fire : ReactionDef ℤ → Act platform (Unit {0})
fire r = record_event (λ t. event_received r.to_signal r.event t none)

dispatch_reactions-Schedules_example :
    (order : List (ReactionDef ℤ)) × (left : List (ReactionDef ℤ)) × (dispatch_reactions fire fork
      ≡ for_each fire order)
    × Schedules fork order left
dispatch_reactions-Schedules_example = dispatch_reactions-Schedules fire fork

dispatch_reactions-serial_example :
    dispatch_reactions fire (member "b" ∷ member "c" ∷ [])
    ≡ for_each fire (member "b" ∷ member "c" ∷ [])
dispatch_reactions-serial_example =
    dispatch_reactions-serial fire (member "b" ∷ member "c" ∷ []) (refl, (refl, tt))

dispatch_reactions-fuel_example :
    dispatch_reactions fire fork
    ≡ dispatch_loop 7 fire (group_totals fork []) (filter (λ r. is_empty r.requires) fork) (record {
      waiting = filter (λ r. not (is_empty r.requires)) fork;
      group_done_count = [];
      groups_done = [];
    })
dispatch_reactions-fuel_example = dispatch_reactions-fuel fire fork 7 (omega arith)
