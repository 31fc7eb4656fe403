-- ===== src/Belief/Mutations.antt =====
-- The methods of internal/ai/belief/graph.go that change the graph in place.
use ops_captain.Base.{
  ℕ, ◌+◌, String, Bool, ◌&&◌, ◌||◌, Option, none, some, ltb, str_eq, if◌then◌else◌, length, is_some,
  not, [], ◌∷◌,
}
use ops_captain.Base.Dict.{Dict, lookup, insert, has, map_values}
use ops_captain.Belief.Types.{
  NodeType, signal, evidence, hypothesis, EdgeType, active, retracted, superseded, AttrValue, text,
  instant, EvidenceSource, Node, Edge,
}
use ops_captain.Belief.Graph.{
  Outside, BeliefGraph, is_active, edge_key, update_level_nodes, step_name, over, record_mutation,
  prepare_mutation,
}
use Prim.Native.String.{◌++◌ as join}

module _ {F : Type 0} (o : Outside F) where
  abbrev pub node_name : ℕ → String
  node_name step = join "node-" (o.decimal step)

  -- `if !g.prepareMutationInternal(g.CurrentStep + 1) { stop }; go`
  unfoldable pub when_ready {ℓ} :
      {A : Type ℓ} → BeliefGraph F → (BeliefGraph F → A) → (BeliefGraph F → A) → A
  when_ready g go stop =
      let (p, ready) = prepare_mutation o g (g.current_step + 1) in if ready then go p else stop p

  -- `addNodeInternal`: the graph and the id of the node, which is empty if there is none.
  unfoldable pub add_node :
      BeliefGraph F
      → NodeType
      → String
      → F
      → ℕ
      → Dict AttrValue
      → Option (EvidenceSource F)
      → ℕ
      → BeliefGraph F × String
  add_node g kind label score level attrs source now =
      if is_some g.limit_err
      then (g, "")
      else if ltb g.policy.max_nodes (length g.nodes + 1)
      then (
        record g { limit_err = some (over o "nodes" g.policy.max_nodes (length g.nodes + 1)) },
        "",
      )
      else if ltb g.policy.max_depth level
      then (record g { limit_err = some (over o "depth" g.policy.max_depth level) }, "")
      else when_ready g
          (λ p.
            let step = p.current_step + 1 in
            let node : Node F = record {
              id = node_name step;
              kind = kind;
              label = label;
              score = score;
              status = active;
              level = level;
              attrs = attrs;
              source = source;
              retracted_by = "";
              superseded_by = "";
              retracted_at = none;
              step_id = step_name o step;
            } in
            let added = record p {
              current_step = step;
              nodes = insert (node_name step) node p.nodes;
            } in
            (record_mutation o (update_level_nodes o added) "add_node" now, node_name step))
          (λ p. (p, ""))

  unfoldable pub add_signal : BeliefGraph F → String → ℕ → BeliefGraph F × String
  add_signal g label now = add_node g signal label o.one 0 [] none now

  unfoldable pub add_evidence :
      BeliefGraph F → String → Option (EvidenceSource F) → ℕ → BeliefGraph F × String
  add_evidence g label source now = add_node g evidence label o.one 0 [] source now

  unfoldable pub add_hypothesis :
      BeliefGraph F → String → F → ℕ → String → ℕ → BeliefGraph F × String
  add_hypothesis g label score level why now =
      add_node g hypothesis label score level (("why", text why) ∷ []) none now

  -- The part of a method that starts once the node is known to exist: one step is taken and `change`
  -- is made, if the history has room for it.
  unfoldable pub change_step :
      BeliefGraph F → (BeliefGraph F → BeliefGraph F) → String → ℕ → BeliefGraph F
  change_step g change action now =
      when_ready g
        (λ p.
          record_mutation o
            (update_level_nodes o (change (record p { current_step = p.current_step + 1 }))) action
            now)
        (λ p. p)

  unfoldable pub update_node : BeliefGraph F → String → F → String → ℕ → BeliefGraph F
  update_node g node_id new_score new_why now = elim (lookup node_id g.nodes) [
    | none ↦ g
    | some node ↦
        change_step g
          (λ p. record p {
            nodes =
                insert node_id
                  (record node {
                    score = new_score;
                    attrs =
                        insert "updated_at" (instant now) (insert "why" (text new_why) node.attrs);
                  })
                  p.nodes;
          })
          "update_node" now
  ]

  -- `edge.Src == nodeID || edge.Dst == nodeID`
  abbrev pub touches : String → Edge F → Bool
  touches node_id e = str_eq e.src node_id || str_eq e.dst node_id

  abbrev pub retract_edge : String → String → ℕ → Edge F → Edge F
  retract_edge node_id retracted_by now e =
      if touches node_id e && is_active e.status
      then record e { status = retracted; retracted_by = retracted_by; retracted_at = some now }
      else e

  unfoldable pub retract_node : BeliefGraph F → String → String → String → ℕ → BeliefGraph F
  retract_node g node_id retracted_by reason now = elim (lookup node_id g.nodes) [
    | none ↦ g
    | some node ↦
        change_step g
          (λ p. record p {
            nodes =
                insert node_id
                  (record node {
                    status = retracted;
                    retracted_by = retracted_by;
                    retracted_at = some now;
                    attrs = insert "retract_reason" (text reason) node.attrs;
                  })
                  p.nodes;
            edges = map_values (retract_edge node_id retracted_by now) p.edges;
          })
          "retract_node" now
  ]

  unfoldable pub supersede_node : BeliefGraph F → String → String → String → ℕ → BeliefGraph F
  supersede_node g old_node_id new_node_id reason now = elim (lookup old_node_id g.nodes) [
    | none ↦ g
    | some node ↦
        change_step g
          (λ p. record p {
            nodes =
                insert old_node_id
                  (record node {
                    status = superseded;
                    superseded_by = new_node_id;
                    attrs = insert "supersede_reason" (text reason) node.attrs;
                  })
                  p.nodes;
          })
          "supersede_node" now
  ]

  -- `addEdgeInternal`; the levels are left as they are.
  unfoldable pub add_edge :
      BeliefGraph F → String → String → EdgeType → F → String → ℕ → BeliefGraph F
  add_edge g src dst kind confidence derivation_type now =
      let key = edge_key src dst in
      if is_some g.limit_err || not (has src g.nodes) || not (has dst g.nodes)
      then g
      else if not (has key g.edges) && ltb g.policy.max_edges (length g.edges + 1)
      then record g { limit_err = some (over o "edges" g.policy.max_edges (length g.edges + 1)) }
      else when_ready g
          (λ p.
            let step = p.current_step + 1 in
            let edge : Edge F = record {
              src = src;
              dst = dst;
              kind = kind;
              status = active;
              confidence = confidence;
              derivation_type = derivation_type;
              extractor_version = "v1.0";
              step_id = step_name o step;
              retracted_by = "";
              retracted_at = none;
            } in
            record_mutation o (record p { current_step = step; edges = insert key edge p.edges })
              "add_edge" now)
          (λ p. p)
