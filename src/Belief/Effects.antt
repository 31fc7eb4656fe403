-- ===== src/Belief/Effects.antt =====
-- What adding and retracting a node does to the graph of internal/ai/belief/graph.go.
use ops_captain.Base.{
  Option, ℕ, ◌+◌, ◌≡◌, refl, ◌⊎◌, inl, inr, String, true, false, ◌&&◌, ◌||◌, some, arith, ltb,
  str_eq, if◌then◌else◌, length, is_some, Bool-cases, ap, ◌∙◌, subst, sym, not, keep, [], ◌∷◌,
}
use ops_captain.Base.Dict.{
  Dict, lookup, has, map_values, length-insert_fresh, lookup-insert, AllEntries,
}
use ops_captain.Belief.Types.{NodeType, AttrValue, EvidenceSource, active, retracted, Node, Edge}
use ops_captain.Belief.Graph.{
  Outside, BeliefGraph, is_active, update_level_nodes, record_mutation, prepare_mutation,
}
use ops_captain.Belief.Mutations.{
  node_name, when_ready, add_node, change_step, retract_edge, retract_node,
}
use ops_captain.Belief.Calls.{RecordKeeps, record_mutation-RecordKeeps}
use ops_captain.Belief.Rule.{when_ready-cases}
use ops_captain.Belief.Invariant.{IsSound, node_name-fresh}

module _ {F : Type 0} (o : Outside F) where
  kept :
      (g : BeliefGraph F) (action : String) (now : ℕ)
      → RecordKeeps o g (record_mutation o g action now)
  kept g action now = record_mutation-RecordKeeps o g action now

  -- The graph and the id that `add_node` may return on the graph `g`.
  abbrev Adds : BeliefGraph F → NodeType → String → F → ℕ → BeliefGraph F × String → Type 0
  Adds g kind label score level (g', id) =
      ((id ≡ "") × (g'.nodes ≡ g.nodes) × (g'.edges ≡ g.edges))
      ⊎ ((n : Node F) × (n.kind ≡ kind)
          × (n.label ≡ label)
          × (n.score ≡ score)
          × (n.level ≡ level)
          × (n.status ≡ active)
          × (has id g.nodes ≡ false)
          × (length g'.nodes ≡ length g.nodes + 1)
          × ((j : String) → lookup j g'.nodes ≡ (if str_eq id j then some n else lookup j g.nodes))
          × (g'.edges ≡ g.edges))

  -- On a sound graph, with decimals that differ for different numbers, a node is refused with the empty
  -- id and nodes and edges stay, or it is there, active, under an id that no node had; there is one
  -- node more, all the others read as before, and the edges stay.
  pub add_node-cases :
      (decimal_injective : (m n : ℕ) → o.decimal m ≡ o.decimal n → m ≡ n) (g : BeliefGraph F)
      (kind : NodeType) (label : String) (score : F) (level : ℕ) (attrs : Dict AttrValue)
      (source : Option (EvidenceSource F)) (now : ℕ)
      → IsSound o g
      → let (g', id) = add_node o g kind label score level attrs source now in
        ((id ≡ "") × (g'.nodes ≡ g.nodes) × (g'.edges ≡ g.edges))
        ⊎ ((n : Node F) × (n.kind ≡ kind)
            × (n.label ≡ label)
            × (n.score ≡ score)
            × (n.level ≡ level)
            × (n.status ≡ active)
            × (has id g.nodes ≡ false)
            × (length g'.nodes ≡ length g.nodes + 1)
            × ((j : String)
                → lookup j g'.nodes ≡ (if str_eq id j then some n else lookup j g.nodes))
            × (g'.edges ≡ g.edges))
  unfolding add_node update_level_nodes
  add_node-cases inj g kind label score level attrs source now s =
      elim (Bool-cases (is_some g.limit_err)) [
        | inl e ↦ rw (e, add_node) (inl (refl, refl, refl))
        | inr e ↦ elim (Bool-cases (ltb g.policy.max_nodes (length g.nodes + 1))) [
          | inl full ↦ rw (e, add_node) (rw full (inl (refl, refl, refl)))
          | inr room ↦ elim (Bool-cases (ltb g.policy.max_depth level)) [
            | inl deep ↦ rw (e, add_node) (rw room (rw deep (inl (refl, refl, refl))))
            | inr shallow ↦
                rw (e, add_node)
                  (rw room (
                    rw shallow (
                      when_ready-cases o (Adds g kind label score level) g _ _
                        (inr (
                          _,
                          refl,
                          refl,
                          refl,
                          refl,
                          refl,
                          node_name-fresh o inj g s,
                          ap (λ m. length m) (kept _ _ _).nodes
                              ∙ length-insert_fresh _ _ g.nodes (node_name-fresh o inj g s),
                          λ j.
                              ap (lookup j) (kept _ _ _).nodes
                              ∙ lookup-insert (node_name o (g.current_step + 1)) j _ g.nodes,
                          (kept _ _ _).edges,
                        ))
                        (inl (refl, refl, refl)) (λ x. inl (refl, refl, refl)))))
          ]
        ]
      ]

  -- The edge is not an active one at the node.
  abbrev pub Cut : String → Edge F → Type 0
  Cut id e = ((str_eq e.src id || str_eq e.dst id) && is_active e.status) ≡ false

  retract_edge-Cut : (id by : String) (now : ℕ) (e : Edge F) → Cut id (retract_edge o id by now e)
  retract_edge-Cut id by now e = ground arith

  retract_edges-Cut :
      (id by : String) (now : ℕ) (es : Dict (Edge F))
      → AllEntries (λ k e. Cut id e) (map_values (retract_edge o id by now) es)
  retract_edges-Cut id by now [] = tt
  retract_edges-Cut id by now ((k, e) ∷ es) =
      (retract_edge-Cut id by now e, retract_edges-Cut id by now es)

  -- The edges away from a node.
  abbrev pub away : String → Dict (Edge F) → Dict (Edge F)
  away id es = keep (λ e. not (str_eq e.1.src id || str_eq e.1.dst id)) es

  retract_edges-away :
      (id by : String) (now : ℕ) (es : Dict (Edge F))
      → away id (map_values (retract_edge o id by now) es) ≡ away id es
  unfolding keep
  retract_edges-away id by now [] = refl
  retract_edges-away id by now ((k, e) ∷ es) = ground (arith, retract_edges-away id by now es)

  ready-same :
      (g : BeliefGraph F) (n : ℕ)
      → (prepare_mutation o g n).1 ≡ true
      → prepare_mutation o g n ≡ (g, true)
  unfolding prepare_mutation
  ready-same g n h = ground arith

  -- On a graph that has room for the step, retracting a node that is there marks it as retracted, with
  -- score and level as before, reads every other node as before, leaves no active edge at it, and
  -- leaves the edges away from it as they were.
  pub retract_node-cuts :
      (g : BeliefGraph F) (id by reason : String) (now : ℕ) (n : Node F)
      → lookup id g.nodes ≡ some n
      → (prepare_mutation o g (g.current_step + 1)).1 ≡ true
      → let g' = retract_node o g id by reason now in
        (m : Node F) × (m.status ≡ retracted)
        × (m.score ≡ n.score)
        × (m.level ≡ n.level)
        × ((j : String) → lookup j g'.nodes ≡ (if str_eq id j then some m else lookup j g.nodes))
        × AllEntries (λ k e. Cut id e) g'.edges
        × (away id g'.edges ≡ away id g.edges)
  unfolding retract_node change_step when_ready update_level_nodes
  retract_node-cuts g id by reason now n found ready =
      rw (found, retract_node)
        (rw (ready-same g (g.current_step + 1) ready) (
          _,
          refl,
          refl,
          refl,
          λ j. ap (lookup j) (kept _ _ _).nodes ∙ lookup-insert id j _ g.nodes,
          subst (AllEntries (λ k e. Cut id e)) (sym (kept _ _ _).edges)
              (retract_edges-Cut id by now g.edges),
          ap (away id) (kept _ _ _).edges ∙ retract_edges-away id by now g.edges,
        ))
