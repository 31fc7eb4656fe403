-- ===== src/Belief/Levels.antt =====
-- The levels that internal/ai/belief/graph.go keeps beside the nodes
-- are those that the nodes give, after every call.
use ops_captain.Base.{
  ℕ, ◌+◌, ◌≡◌, refl, sym, ap, ◌∙◌, inl, inr, String, not, ◌||◌, ◌&&◌, List, map, keep, ltb, length,
  is_some, Bool-cases, Option-cases,
}
use ops_captain.Base.Dict.{Dict, lookup, has, values}
use ops_captain.Base.Sort.{sort}
use ops_captain.Belief.Types.{Node, LevelNode}
use ops_captain.Belief.Graph.{
  Outside, BeliefGraph, edge_key, is_candidate, ranks_before, level_node, update_level_nodes,
  record_mutation,
}
use ops_captain.Belief.Mutations.{
  add_node, update_node, add_edge, retract_node, supersede_node, change_step,
}
use ops_captain.Belief.Calls.{
  GraphCall, adds_node, updates_node, adds_edge, retracts_node, supersedes_node, step,
  record_mutation-RecordKeeps,
}
use ops_captain.Belief.Rule.{when_ready-cases}

module _ {F : Type 0} (o : Outside F) where
  -- The levels that the nodes give.
  abbrev pub levels_of : Dict (Node F) → ℕ → List (LevelNode F)
  levels_of nodes level =
      sort (ranks_before o) (map (level_node o) (keep (is_candidate level) (values nodes)))

  abbrev pub IsRanked : BeliefGraph F → Type 0
  IsRanked g = g.level_nodes ≡ levels_of g.nodes

  pub recorded-IsRanked :
      (g : BeliefGraph F) (action : String) (now : ℕ)
      → IsRanked g
      → IsRanked (record_mutation o g action now)
  recorded-IsRanked g action now h =
      let k = record_mutation-RecordKeeps o g action now in
      k.level_nodes ∙ h ∙ ap levels_of (sym k.nodes)

  change_step-IsRanked :
      (g : BeliefGraph F) (change : BeliefGraph F → BeliefGraph F) (action : String) (now : ℕ)
      → IsRanked g
      → IsRanked (change_step o g change action now)
  unfolding change_step update_level_nodes
  change_step-IsRanked g change action now h =
      when_ready-cases o IsRanked g _ _ (recorded-IsRanked _ action now refl) h (λ e. h)

  pub step-IsRanked : (g : BeliefGraph F) (c : GraphCall F × ℕ) → IsRanked g → IsRanked (step o g c)
  unfolding step add_node update_node add_edge retract_node supersede_node update_level_nodes
  step-IsRanked g (adds_node kind label score level attrs source, now) h =
      elim (Bool-cases (is_some g.limit_err)) [
        | inl e ↦ rw (e, step, add_node) h
        | inr e ↦ elim (Bool-cases (ltb g.policy.max_nodes (length g.nodes + 1))) [
          | inl full ↦ rw (e, step, add_node) (rw full h)
          | inr room ↦ elim (Bool-cases (ltb g.policy.max_depth level)) [
            | inl deep ↦ rw (e, step, add_node) (rw room (rw deep h))
            | inr shallow ↦
                rw (e, step, add_node)
                  (rw room (
                    rw shallow (
                      when_ready-cases o (λ (q : BeliefGraph F × String). IsRanked q.0) g _ _
                        (recorded-IsRanked _ "add_node" now refl) h (λ x. h))))
          ]
        ]
      ]
  step-IsRanked g (updates_node id score why, now) h = elim (Option-cases (lookup id g.nodes)) [
    | inl e ↦ rw (e, step, update_node) h
    | inr (n, e) ↦ rw (e, step, update_node) (change_step-IsRanked g _ _ now h)
  ]
  step-IsRanked g (adds_edge src dst kind confidence derivation, now) h =
      elim (Bool-cases (is_some g.limit_err || not (has src g.nodes) || not (has dst g.nodes))) [
        | inl e ↦ rw (e, step, add_edge) h
        | inr e ↦
            elim (Bool-cases (
              not (has (edge_key src dst) g.edges)
              && ltb g.policy.max_edges (length g.edges + 1))) [
                | inl full ↦ rw (e, step, add_edge) (rw full h)
                | inr room ↦
                    rw (e, step, add_edge)
                      (rw room (
                        when_ready-cases o IsRanked g _ _ (recorded-IsRanked _ "add_edge" now h) h
                          (λ x. h)))
              ]
      ]
  step-IsRanked g (retracts_node id by reason, now) h = elim (Option-cases (lookup id g.nodes)) [
    | inl e ↦ rw (e, step, retract_node) h
    | inr (n, e) ↦ rw (e, step, retract_node) (change_step-IsRanked g _ _ now h)
  ]
  step-IsRanked g (supersedes_node old new reason, now) h =
      elim (Option-cases (lookup old g.nodes)) [
        | inl e ↦ rw (e, step, supersede_node) h
        | inr (n, e) ↦ rw (e, step, supersede_node) (change_step-IsRanked g _ _ now h)
      ]
