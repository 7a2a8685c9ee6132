-- ===== src/Capacity/Tests.antt =====
-- A small run of the slots of src/xpd_report_agent/api/agent_capacity.py.
use xpd_report_agent.Prelude.{◌≤◌, ◌≡◌, refl, none, List, [], ◌∷◌}
use xpd_report_agent.Prelude.Text.{strip}
use xpd_report_agent.Prelude.Env.{unset, number}
use xpd_report_agent.Prelude.Json.{pos}
use xpd_report_agent.Capacity.Slots.{
  LoopState, holding, gone, is_queued, is_holding, fresh_state, state_for_loop, Event, begin,
  acquire, cancel, release, change, acquired, cancelled, released, step, steps, split_commas,
  configured_hermes_node_count, default_limit, agent_max_concurrency,
}
use xpd_report_agent.Capacity.Limit.{number_of, steps_bounded}

program : Unit {0}
unfolding strip split_commas configured_hermes_node_count default_limit agent_max_concurrency
    fresh_state state_for_loop change acquired cancelled released step steps
program = tt

two_nodes : agent_max_concurrency unset "a=http://a, b=http://b" ≡ 14
unfolding program
two_nodes = refl

too_many : agent_max_concurrency (number (pos 90)) "" ≡ 50
unfolding program
too_many = refl

abbrev events : List Event
events = begin ∷ begin ∷ acquire 0 ∷ begin ∷ cancel 0 ∷ release 1 ∷ acquire 2 ∷ []

-- A loop with one slot: the first call waits until the second has left.
abbrev after : LoopState
after = record {
  loop = 7;
  limit = 1;
  free = 0;
  active = 1;
  waiting = 0;
  tasks = gone ∷ gone ∷ holding ∷ [];
}

full : steps (begin ∷ begin ∷ acquire 0 ∷ acquire 1 ∷ []) (fresh_state 7 1) ≡ none
unfolding program
full = refl

steps_bounded_example :
    (after.waiting ≡ number_of is_queued after.tasks)
    × (after.active ≡ number_of is_holding after.tasks)
    × (number_of is_holding after.tasks ≤ after.limit)
    × (number_of is_holding after.tasks ≡ 0 → after.free ≡ after.limit)
unfolding program
steps_bounded_example = steps_bounded 7 1 events refl

abbrev idle : LoopState
idle = fresh_state 7 1
