-- ===== src/Belief/Atomic.antt =====
-- What an update by copy of internal/ai/belief/graph.go leaves behind if it is not committed.
use ops_captain.Base.{ℕ, suc, ◌≤◌, ◌≡◌, false, Option, none, some, List, arith, length}
use ops_captain.Belief.Graph.{
  Outside, BeliefGraph, over, is_checkpoint, update_level_nodes, record_mutation, preflight_record,
}
use ops_captain.Belief.Calls.{GraphCall, run, run-limit_err}
use ops_captain.Belief.Update.{
  limit_exceeded, deep_copy, validate_resource_limits, commit, update_copy_on_write,
}

module _ {F E : Type 0} (o : Outside F) where
  -- The check before the commit looks at the history only if the step has moved, and the recording
  -- after it does not: on a graph whose deltas are full between two checkpoints, an update that takes no
  -- step, does not fail and stays within the limits is answered with a limit error although its
  -- nodes, edges and text are applied. The error stays: every further mutation leaves the graph as it is.
  pub idle_update_poisons :
      (g : BeliefGraph F) (fn : BeliefGraph F → BeliefGraph F × Option E) (now : ℕ)
      (cs : List (GraphCall F × ℕ))
      → let cp = (fn (deep_copy o g)).0 in
        (fn (deep_copy o g)).1 ≡ none
        → cp.limit_err ≡ none
        → validate_resource_limits o cp ≡ none
        → cp.current_step ≡ g.current_step
        → g.limit_err ≡ none
        → g.recording_disabled ≡ false
        → is_checkpoint o g g.current_step ≡ false
        → g.policy.max_deltas ≤ length g.deltas
        → let e = over o "deltas" g.policy.max_deltas (suc (length g.deltas)) in
          let after = update_copy_on_write o g g fn now in
          (after.1 ≡ some (limit_exceeded e))
          × (after.0.limit_err ≡ some e)
          × (after.0.nodes ≡ cp.nodes)
          × (after.0.edges ≡ cp.edges)
          × (after.0.belief ≡ cp.belief)
          × (run o after.0 cs ≡ after.0)
  unfolding update_copy_on_write commit record_mutation preflight_record update_level_nodes
  idle_update_poisons g fn now cs ok unlimited valid idle a b c d =
      let after = update_copy_on_write o g g fn now in
      let e = over o "deltas" g.policy.max_deltas (suc (length g.deltas)) in
      let stopped : after.0.limit_err ≡ some e = ground arith in
      (
        ground arith,
        stopped,
        ground arith,
        ground arith,
        ground arith,
        run-limit_err o after.0 cs (rw stopped),
      )
