-- ===== src/Belief/Update.antt =====
-- The copy-on-write update of internal/ai/belief/graph.go, and the check of the limits.
use ops_captain.Base.{
  ℕ, String, true, Option, none, some, List, [], ◌∷◌, ltb, ◌==◌, not, if◌then◌else◌, length,
}
use ops_captain.Base.Dict.{values}
use ops_captain.Belief.Types.{Node, GraphResourceLimitError}
use ops_captain.Belief.Graph.{
  Outside, BeliefGraph, over, update_level_nodes, record_mutation, preflight_record,
}

pub record GraphResourceStats : Type 0 where
  pub nodes : ℕ
  pub edges : ℕ
  pub depth : ℕ
  pub snapshots : ℕ
  pub deltas : ℕ
  pub history_bytes : ℕ

-- Why an update was not committed: the error of the caller's function, a limit, or another change.
pub data UpdateError (E : Type 0) : Type 0 where
  function_failed : E → UpdateError E
  limit_exceeded : GraphResourceLimitError → UpdateError E
  graph_changed : UpdateError E

module _ {F : Type 0} where
  -- The largest level, from `depth` on.
  unfoldable pub max_level : ℕ → List (Node F) → ℕ
  max_level depth [] = depth
  max_level depth (n ∷ ns) = max_level (if ltb depth n.level then n.level else depth) ns

module _ {F : Type 0} (o : Outside F) where
  unfoldable pub resource_stats : BeliefGraph F → GraphResourceStats
  resource_stats g = record {
    nodes = length g.nodes;
    edges = length g.edges;
    depth = max_level 0 (values g.nodes);
    snapshots = length g.snapshots;
    deltas = length g.deltas;
    history_bytes = o.history_bytes g.snapshots g.deltas;
  }

  check_limit :
      String → (actual limit : ℕ) → Option GraphResourceLimitError → Option GraphResourceLimitError
  check_limit name actual limit rest =
      if ltb limit actual then some (over o name limit actual) else rest

  -- `validateResourceLimitsInternal`: the first limit that is exceeded.
  unfoldable pub validate_resource_limits : BeliefGraph F → Option GraphResourceLimitError
  unfolding resource_stats check_limit
  validate_resource_limits g =
      let stats = resource_stats g in
      check_limit "nodes" stats.nodes g.policy.max_nodes (
        check_limit "edges" stats.edges g.policy.max_edges (
          check_limit "depth" stats.depth g.policy.max_depth (
            check_limit "snapshots" stats.snapshots g.policy.max_snapshots
              (check_limit "deltas" stats.deltas g.policy.max_deltas none))))

  unfoldable pub validate_resources : BeliefGraph F → Option GraphResourceLimitError
  validate_resources g = elim g.limit_err [ some e ↦ some e | none ↦ validate_resource_limits g ]

  -- The copy that the function works on has no history, no levels, and records nothing.
  unfoldable pub deep_copy : BeliefGraph F → BeliefGraph F
  deep_copy g = record {
    nodes = g.nodes;
    edges = g.edges;
    start_signal_id = g.start_signal_id;
    belief = g.belief;
    level_nodes = λ level. [];
    snapshots = [];
    deltas = [];
    current_step = g.current_step;
    policy = g.policy;
    last_checkpoint_step = 0;
    recorded_node_hashes = [];
    recorded_edge_hashes = [];
    recording_disabled = true;
    limit_err = none;
  }

  module _ {E : Type 0} where
    -- The second half, under the write lock: `g` is the graph by now.
    unfoldable pub commit :
        BeliefGraph F
        → (original_step : ℕ) → BeliefGraph F
        → ℕ
        → BeliefGraph F × Option (UpdateError E)
    commit g original_step cp now =
        if not (g.current_step == original_step)
        then (g, some graph_changed)
        else elim (preflight_record o g cp.current_step) [
          | some e ↦ (g, some (limit_exceeded e))
          | none ↦
              let g' =
                record_mutation o
                  (update_level_nodes o (record g {
                    nodes = cp.nodes;
                    edges = cp.edges;
                    start_signal_id = cp.start_signal_id;
                    belief = cp.belief;
                    current_step = cp.current_step;
                  }))
                  "copy_on_write_update" now in
              (g', elim g'.limit_err [ some e ↦ some (limit_exceeded e) | none ↦ none ])
        ]

    -- `UpdateCopyOnWrite`: `g` is the graph when the copy is taken, and `g_now` when the lock is taken
    -- again. No error means that the update was committed.
    unfoldable pub update_copy_on_write :
        (g g_now : BeliefGraph F)
        → (BeliefGraph F → BeliefGraph F × Option E)
        → ℕ
        → BeliefGraph F × Option (UpdateError E)
    update_copy_on_write g g_now fn now =
        let (cp, failed) = fn (deep_copy g) in
        elim failed [
          | some e ↦ (g_now, some (function_failed e))
          | none ↦ elim cp.limit_err [
            | some e ↦ (g_now, some (limit_exceeded e))
            | none ↦ elim (validate_resource_limits cp) [
              | some e ↦ (g_now, some (limit_exceeded e))
              | none ↦ commit g_now g.current_step cp now
            ]
          ]
        ]
