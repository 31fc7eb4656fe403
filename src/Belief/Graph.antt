-- ===== src/Belief/Graph.antt =====
-- The belief graph of internal/ai/belief/graph.go: its state and the book-keeping of its history.
-- The methods hold the lock throughout; the time of a call is an argument.
use Prim.Native.String.{◌++◌ as join}
use ops_captain.Base.{
  ℕ, suc, ◌-◌, String, Bool, true, false, not, ◌&&◌, ◌||◌, Option, none, some, List, [], ◌∷◌, ◌++◌,
  map, leb, ◌==◌, str_eq, if◌then◌else◌, length, keep, is_some,
}
use ops_captain.Base.Dict.{Dict, lookup, values}
use ops_captain.Base.Sort.{sort}
use ops_captain.Belief.Types.{
  NodeType, signal, evidence, hypothesis, NodeStatus, active, retracted, superseded, Node, Edge,
  LevelNode, GraphSnapshot, GraphDelta, GraphPolicy, GraphResourceLimitError,
}

-- What the graph takes from elsewhere: Go's comparisons of floats and of texts, `fmt`'s `%d`, the
-- SHA-256 of a node's and of an edge's JSON, the text of the belief and the size of the history.
pub record Outside (F : Type 0) : Type 0 where
  pub greater : F → F → Bool
  pub equal : F → F → Bool
  pub text_less : String → String → Bool
  pub decimal : ℕ → String
  pub node_hash : Node F → String
  pub edge_hash : Edge F → String
  pub belief_text : List (Node F) → String
  pub history_bytes : List (GraphSnapshot F) → List (GraphDelta F) → ℕ
  pub one : F

pub record BeliefGraph (F : Type 0) : Type 0 where
  pub nodes : Dict (Node F)
  pub edges : Dict (Edge F)
  pub start_signal_id : String
  pub belief : String
  pub level_nodes : ℕ → List (LevelNode F)
  pub snapshots : List (GraphSnapshot F)
  pub deltas : List (GraphDelta F)
  pub current_step : ℕ
  pub policy : GraphPolicy
  pub last_checkpoint_step : ℕ
  pub recorded_node_hashes : Dict String
  pub recorded_edge_hashes : Dict String
  pub recording_disabled : Bool
  pub limit_err : Option GraphResourceLimitError

abbrev positive_or : ℕ → ℕ → ℕ
positive_or default n = if n == 0 then default else n

unfoldable pub normalize_graph_policy : GraphPolicy → GraphPolicy
normalize_graph_policy p =
    let interval = positive_or 10 p.checkpoint_interval in
    record {
      checkpoint_interval = interval;
      max_nodes = positive_or 256 p.max_nodes;
      max_edges = positive_or 512 p.max_edges;
      max_depth = positive_or 4 p.max_depth;
      max_snapshots = positive_or 32 p.max_snapshots;
      max_deltas = positive_or interval p.max_deltas;
    }

abbrev pub is_hypothesis : NodeType → Bool
is_hypothesis hypothesis = true
is_hypothesis signal = false
is_hypothesis evidence = false

abbrev pub is_active : NodeStatus → Bool
is_active active = true
is_active retracted = false
is_active superseded = false

-- `src + "->" + dst`
abbrev pub edge_key : String → String → String
edge_key src dst = join src (join "->" dst)

-- The entries whose hash is new or has changed.
unfoldable pub upserts : {W : Type 0} → (W → String) → Dict String → Dict W → Dict W
upserts hash recorded =
    keep (λ e. elim (lookup e.0 recorded) [ none ↦ true | some old ↦ not (str_eq old (hash e.1)) ])

module _ {F : Type 0} where
  unfoldable pub new_belief_graph_with_policy : GraphPolicy → BeliefGraph F
  new_belief_graph_with_policy policy = record {
    nodes = [];
    edges = [];
    start_signal_id = "";
    belief = "";
    level_nodes = λ level. [];
    snapshots = [];
    deltas = [];
    current_step = 0;
    policy = normalize_graph_policy policy;
    last_checkpoint_step = 0;
    recorded_node_hashes = [];
    recorded_edge_hashes = [];
    recording_disabled = false;
    limit_err = none;
  }

  abbrev pub is_candidate : ℕ → Node F → Bool
  is_candidate level n = is_hypothesis n.kind && is_active n.status && (n.level == level)

module _ {F : Type 0} (o : Outside F) where
  -- The order of the candidates of a level: by score, then by id.
  abbrev pub ranks_before : LevelNode F → LevelNode F → Bool
  ranks_before a b =
      if o.equal a.confidence b.confidence
      then o.text_less a.node_id b.node_id
      else o.greater a.confidence b.confidence

  abbrev pub level_node : Node F → LevelNode F
  level_node n = record { node_id = n.id; confidence = n.score }

  -- `updateLevelNodesInternal`
  unfoldable pub update_level_nodes : BeliefGraph F → BeliefGraph F
  update_level_nodes g = record g {
    level_nodes =
        λ level. sort ranks_before (map level_node (keep (is_candidate level) (values g.nodes)));
  }

  unfoldable pub refresh_recorded_hashes : BeliefGraph F → BeliefGraph F
  refresh_recorded_hashes g = record g {
    recorded_node_hashes = map (λ e. (e.0, o.node_hash e.1)) g.nodes;
    recorded_edge_hashes = map (λ e. (e.0, o.edge_hash e.1)) g.edges;
  }

  abbrev pub step_name : ℕ → String
  step_name n = join "step-" (o.decimal n)

  unfoldable pub take_snapshot : BeliefGraph F → String → ℕ → BeliefGraph F
  unfolding refresh_recorded_hashes
  take_snapshot g action now =
      let snap : GraphSnapshot F = record {
        step_id = step_name g.current_step;
        timestamp = now;
        action = action;
        nodes = g.nodes;
        edges = g.edges;
      } in
      refresh_recorded_hashes (record g {
        snapshots = g.snapshots ++ snap ∷ [];
        deltas = [];
        last_checkpoint_step = g.current_step;
      })

  abbrev pub over : String → ℕ → ℕ → GraphResourceLimitError
  over resource limit actual = record { resource = resource; limit = limit; actual = actual }

  abbrev pub is_checkpoint : BeliefGraph F → ℕ → Bool
  is_checkpoint g step =
      (g.last_checkpoint_step == 0)
      || leb g.policy.checkpoint_interval (step - g.last_checkpoint_step)

  unfoldable pub append_delta : BeliefGraph F → String → ℕ → BeliefGraph F
  unfolding refresh_recorded_hashes upserts
  append_delta g action now =
      let delta : GraphDelta F = record {
        step_id = step_name g.current_step;
        timestamp = now;
        action = action;
        upsert_nodes = upserts o.node_hash g.recorded_node_hashes g.nodes;
        upsert_edges = upserts o.edge_hash g.recorded_edge_hashes g.edges;
      } in
      refresh_recorded_hashes (record g { deltas = g.deltas ++ delta ∷ [] })

  -- `recordMutationInternal`
  unfoldable pub record_mutation : BeliefGraph F → String → ℕ → BeliefGraph F
  record_mutation g action now =
      if g.recording_disabled || is_some g.limit_err
      then g
      else if is_checkpoint g g.current_step
      then if leb g.policy.max_snapshots (length g.snapshots)
        then record g {
          limit_err = some (over "snapshots" g.policy.max_snapshots (suc (length g.snapshots)));
        }
        else take_snapshot g action now
      else if leb g.policy.max_deltas (length g.deltas)
      then record g { limit_err = some (over "deltas" g.policy.max_deltas (suc (length g.deltas))) }
      else append_delta g action now

  unfoldable pub preflight_record : BeliefGraph F → ℕ → Option GraphResourceLimitError
  preflight_record g next_step =
      if next_step == g.current_step
      then none
      else if is_checkpoint g next_step && leb g.policy.max_snapshots (length g.snapshots)
      then some (over "snapshots" g.policy.max_snapshots (suc (length g.snapshots)))
      else if not (is_checkpoint g next_step) && leb g.policy.max_deltas (length g.deltas)
      then some (over "deltas" g.policy.max_deltas (suc (length g.deltas)))
      else none

  -- `prepareMutationInternal`: the graph, and whether the mutation may go on.
  unfoldable pub prepare_mutation : BeliefGraph F → ℕ → BeliefGraph F × Bool
  prepare_mutation g next_step =
      if is_some g.limit_err
      then (g, false)
      else if g.recording_disabled
      then (g, true)
      else elim (preflight_record g next_step) [
        | none ↦ (g, true)
        | some e ↦ (record g { limit_err = some e }, false)
      ]
