-- ===== src/Belief/UpdateScenarios.antt =====
-- Retracting a node and updating by copy, on graphs of internal/ai/belief/graph.go.
use ops_captain.Base.{
  Option, ℕ, suc, ◌+◌, ◌≤◌, ◌≡◌, refl, String, true, false, none, some, [], ◌∷◌, arith,
  if◌then◌else◌, str_eq, length,
}
use ops_captain.Base.Dict.{lookup, AllEntries}
use ops_captain.Belief.Types.{hypothesis, Node, GraphDelta, active, retracted}
use ops_captain.Belief.Graph.{
  BeliefGraph, over, new_belief_graph_with_policy, normalize_graph_policy, prepare_mutation,
  preflight_record, is_checkpoint,
}
use ops_captain.Belief.Mutations.{retract_node}
use ops_captain.Belief.Calls.{updates_node, run}
use ops_captain.Belief.Update.{
  limit_exceeded, deep_copy, validate_resource_limits, update_copy_on_write, resource_stats,
  max_level,
}
use ops_captain.Belief.Atomic.{idle_update_poisons}
use ops_captain.Belief.Effects.{Cut, away, retract_node-cuts}
use ops_captain.Belief.Scenarios.{here, empty}

abbrev leak : Node ℕ
leak = record {
  id = "node-i";
  kind = hypothesis;
  label = "leak";
  score = 80;
  status = active;
  level = 1;
  attrs = [];
  source = none;
  retracted_by = "";
  superseded_by = "";
  retracted_at = none;
  step_id = "step-i";
}

abbrev with_leak : BeliefGraph ℕ
with_leak = record empty { nodes = ("node-i", leak) ∷ []; current_step = 1 }

leak_found : lookup "node-i" with_leak.nodes ≡ some leak
unfolding lookup
leak_found = refl

with_leak_ready : (prepare_mutation here with_leak (with_leak.current_step + 1)).1 ≡ true
unfolding prepare_mutation preflight_record new_belief_graph_with_policy normalize_graph_policy
with_leak_ready = refl

retract_node-cuts_example :
    let g' = retract_node here with_leak "node-i" "analyst" "restarted" 12 in
    (m : Node ℕ) × (m.status ≡ retracted)
    × (m.score ≡ 80)
    × (m.level ≡ 1)
    × ((j : String)
        → lookup j g'.nodes ≡ (if str_eq "node-i" j then some m else lookup j with_leak.nodes))
    × AllEntries (λ k e. Cut here "node-i" e) g'.edges
    × (away here "node-i" g'.edges ≡ away here "node-i" with_leak.edges)
retract_node-cuts_example =
    retract_node-cuts here with_leak "node-i" "analyst" "restarted" 12 leak leak_found
      with_leak_ready

-- The caller's function adds a step.
abbrev bump : BeliefGraph ℕ → BeliefGraph ℕ × Option String
bump g = (record g { current_step = 7 }, none)

-- A graph whose three deltas are used up.
abbrev full : BeliefGraph ℕ
full =
    let d : GraphDelta ℕ = record {
      step_id = "step-i";
      timestamp = 1;
      action = "update_node";
      upsert_nodes = [];
      upsert_edges = [];
    } in
    record with_leak {
      deltas = d ∷ d ∷ d ∷ [];
      snapshots =
          record { step_id = "step-i"; timestamp = 1; action = "add_node"; nodes = []; edges = [] }
          ∷ [];
      current_step = 4;
      last_checkpoint_step = 1;
    }

full_limit : full.limit_err ≡ none
unfolding new_belief_graph_with_policy
full_limit = refl

full_recording : full.recording_disabled ≡ false
unfolding new_belief_graph_with_policy
full_recording = refl

full_between : is_checkpoint here full full.current_step ≡ false
unfolding new_belief_graph_with_policy normalize_graph_policy
full_between = refl

full_deltas : full.policy.max_deltas ≤ length full.deltas
unfolding new_belief_graph_with_policy normalize_graph_policy
full_deltas = omega arith

-- An update that changes the text only.
abbrev retell : BeliefGraph ℕ → BeliefGraph ℕ × Option String
retell g = (record g { belief = "the api leaks" }, none)

full_retold : validate_resource_limits here (retell (deep_copy here full)).0 ≡ none
unfolding validate_resource_limits resource_stats max_level deep_copy new_belief_graph_with_policy
    normalize_graph_policy
full_retold = refl

full_idle : (retell (deep_copy here full)).0.current_step ≡ full.current_step
unfolding deep_copy new_belief_graph_with_policy
full_idle = refl

full_unlimited : (retell (deep_copy here full)).0.limit_err ≡ none
unfolding deep_copy
full_unlimited = refl

idle_update_poisons_example :
    let e = over here "deltas" full.policy.max_deltas (suc (length full.deltas)) in
    let cp = (retell (deep_copy here full)).0 in
    let after = update_copy_on_write here full full retell 9 in
    (after.1 ≡ some (limit_exceeded e))
    × (after.0.limit_err ≡ some e)
    × (after.0.nodes ≡ cp.nodes)
    × (after.0.edges ≡ cp.edges)
    × (after.0.belief ≡ cp.belief)
    × (run here after.0 ((updates_node "node-i" 90 "", 10) ∷ []) ≡ after.0)
idle_update_poisons_example =
    idle_update_poisons here full retell 9 ((updates_node "node-i" 90 "", 10) ∷ []) refl
      full_unlimited full_retold full_idle full_limit full_recording full_between full_deltas
