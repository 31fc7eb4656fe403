-- ===== src/Belief/Rule.antt =====
-- A rule for what every call on the graph of internal/ai/belief/graph.go keeps: a predicate that
-- holds through the few elementary changes holds through every call.
use ops_captain.Base.{
  ℕ, ◌+◌, ◌≤◌, ◌≡◌, refl, ◌⊎◌, inl, inr, String, Bool, true, false, not, ◌||◌, ◌&&◌, Option, some,
  arith, ltb, length, is_some, Bool-cases, Option-cases, List, [], ◌∷◌,
}
use ops_captain.Base.Dict.{Dict, lookup, insert, has, map_values}
use ops_captain.Belief.Types.{
  NodeType, EdgeType, AttrValue, EvidenceSource, Node, Edge, GraphResourceLimitError,
}
use ops_captain.Belief.Graph.{
  Outside, BeliefGraph, edge_key, update_level_nodes, record_mutation, prepare_mutation,
  preflight_record,
}
use ops_captain.Belief.Mutations.{
  node_name, add_node, update_node, add_edge, retract_node, supersede_node, change_step, when_ready,
  retract_edge,
}
use ops_captain.Belief.Calls.{
  GraphCall, adds_node, updates_node, adds_edge, retracts_node, supersedes_node, step, run,
}

or_room :
    (known : Bool) (n limit : ℕ) → (not known && ltb limit n) ≡ false → (known ≡ true) ⊎ (n ≤ limit)
or_room true n limit h = inl refl
or_room false n limit h = inr (ground arith)

module _ {F : Type 0} (o : Outside F) where
  pub record IsRule (P : BeliefGraph F → Type 0) : Type 0 where
    pub limits :
        (g : BeliefGraph F) (e : GraphResourceLimitError)
        → P g
        → P (record g { limit_err = some e })
    pub records :
        (g : BeliefGraph F) (action : String) (now : ℕ) → P g → P (record_mutation o g action now)
    pub levels : (g : BeliefGraph F) → P g → P (update_level_nodes o g)
    pub grows :
        (g : BeliefGraph F) (n : Node F)
        → length g.nodes + 1 ≤ g.policy.max_nodes
        → n.level ≤ g.policy.max_depth
        → P g
        → P (record g {
          current_step = g.current_step + 1;
          nodes = insert (node_name o (g.current_step + 1)) n g.nodes;
        })
    pub changes :
        (g : BeliefGraph F) (id : String) (old new : Node F)
        → lookup id g.nodes ≡ some old
        → new.level ≡ old.level
        → P g
        → P (record g { current_step = g.current_step + 1; nodes = insert id new g.nodes })
    pub edits :
        (g : BeliefGraph F) (f : Edge F → Edge F)
        → ((e : Edge F) → ((f e).src ≡ e.src) × ((f e).dst ≡ e.dst))
        → P g
        → P (record g { edges = map_values f g.edges })
    pub links :
        (g : BeliefGraph F) (e : Edge F)
        → has e.src g.nodes ≡ true
        → has e.dst g.nodes ≡ true
        → (has (edge_key e.src e.dst) g.edges ≡ true) ⊎ (length g.edges + 1 ≤ g.policy.max_edges)
        → P g
        → P (record g {
          current_step = g.current_step + 1;
          edges = insert (edge_key e.src e.dst) e g.edges;
        })

  retract_edge-ends :
      (id by : String) (now : ℕ) (e : Edge F)
      → ((retract_edge o id by now e).src ≡ e.src) × ((retract_edge o id by now e).dst ≡ e.dst)
  retract_edge-ends id by now e = ground arith

  pub when_ready-cases {ℓ κ} :
      {A : Type ℓ} (Q : A → Type κ) (g : BeliefGraph F) (go stop : BeliefGraph F → A)
      → Q (go g)
      → Q (stop g)
      → ((e : GraphResourceLimitError) → Q (stop (record g { limit_err = some e })))
      → Q (when_ready o g go stop)
  unfolding when_ready prepare_mutation
  when_ready-cases Q g go stop ready full limit = elim (Bool-cases (is_some g.limit_err)) [
    | inl e ↦ rw (e, when_ready) full
    | inr e ↦ elim (Bool-cases g.recording_disabled) [
      | inl d ↦ rw (e, when_ready) (simp d ready)
      | inr d ↦ elim (Option-cases (preflight_record o g (g.current_step + 1))) [
        | inl f ↦ rw (e, when_ready) (simp d (rw f ready))
        | inr (x, f) ↦ rw (e, when_ready) (simp d (rw f (limit x)))
      ]
    ]
  ]

  module _ {P : BeliefGraph F → Type 0} (r : IsRule P) where
    change_step-rule :
        (g : BeliefGraph F) (change : BeliefGraph F → BeliefGraph F) (action : String) (now : ℕ)
        → P g
        → P (change (record g { current_step = g.current_step + 1 }))
        → P (change_step o g change action now)
    unfolding change_step
    change_step-rule g change action now p c =
        when_ready-cases P g _ _ (r.records _ action now (r.levels _ c)) p (λ e. r.limits g e p)

    add_node-rule :
        (g : BeliefGraph F) (kind : NodeType) (label : String) (score : F) (level : ℕ)
        (attrs : Dict AttrValue) (source : Option (EvidenceSource F)) (now : ℕ)
        → P g
        → P (add_node o g kind label score level attrs source now).0
    unfolding add_node
    add_node-rule g kind label score level attrs source now p =
        elim (Bool-cases (is_some g.limit_err)) [
          | inl e ↦ rw (e, add_node) p
          | inr e ↦ elim (Bool-cases (ltb g.policy.max_nodes (length g.nodes + 1))) [
            | inl full ↦ rw (e, add_node) (rw full (r.limits g _ p))
            | inr room ↦ elim (Bool-cases (ltb g.policy.max_depth level)) [
              | inl deep ↦ rw (e, add_node) (rw room (rw deep (r.limits g _ p)))
              | inr shallow ↦
                  rw (e, add_node)
                    (rw room (
                      rw shallow (
                        when_ready-cases (λ (q : BeliefGraph F × String). P q.0) g _ _
                          (r.records _ "add_node" now
                            (r.levels _ (r.grows g _ (ground arith) (ground arith) p)))
                          p (λ x. r.limits g x p))))
            ]
          ]
        ]

    add_edge-rule :
        (g : BeliefGraph F) (src dst : String) (kind : EdgeType) (confidence : F)
        (derivation : String) (now : ℕ)
        → P g
        → P (add_edge o g src dst kind confidence derivation now)
    unfolding add_edge
    add_edge-rule g src dst kind confidence derivation now p =
        elim (Bool-cases (is_some g.limit_err || not (has src g.nodes) || not (has dst g.nodes))) [
          | inl e ↦ rw (e, add_edge) p
          | inr e ↦
              elim (Bool-cases (
                not (has (edge_key src dst) g.edges)
                && ltb g.policy.max_edges (length g.edges + 1))) [
                  | inl full ↦ rw (e, add_edge) (rw full (r.limits g _ p))
                  | inr room ↦
                      rw (e, add_edge)
                        (rw room (
                          when_ready-cases P g _ _
                            (r.records _ "add_edge" now (
                              r.links g _ (ground arith) (ground arith)
                                (or_room (has (edge_key src dst) g.edges) (length g.edges + 1)
                                  g.policy.max_edges room)
                                p))
                            p (λ x. r.limits g x p)))
                ]
        ]

    -- A predicate that the elementary changes keep, every call keeps.
    pub step-rule : (g : BeliefGraph F) (c : GraphCall F × ℕ) → P g → P (step o g c)
    unfolding step update_node retract_node supersede_node
    step-rule g (adds_node kind label score level attrs source, now) p =
        add_node-rule g kind label score level attrs source now p
    step-rule g (updates_node id score why, now) p = elim (Option-cases (lookup id g.nodes)) [
      | inl e ↦ rw (e, update_node) p
      | inr (n, e) ↦
          rw (e, update_node) (change_step-rule g _ _ now p (r.changes g id n _ e refl p))
    ]
    step-rule g (adds_edge src dst kind confidence derivation, now) p =
        add_edge-rule g src dst kind confidence derivation now p
    step-rule g (retracts_node id by reason, now) p = elim (Option-cases (lookup id g.nodes)) [
      | inl e ↦ rw (e, retract_node) p
      | inr (n, e) ↦
          rw (e, retract_node)
            (change_step-rule g _ _ now p (
              r.edits _ (retract_edge o id by now) (retract_edge-ends id by now)
                (r.changes g id n _ e refl p)))
    ]
    step-rule g (supersedes_node old new reason, now) p = elim (Option-cases (lookup old g.nodes)) [
      | inl e ↦ rw (e, supersede_node) p
      | inr (n, e) ↦
          rw (e, supersede_node) (change_step-rule g _ _ now p (r.changes g old n _ e refl p))
    ]

    pub run-rule : (g : BeliefGraph F) (cs : List (GraphCall F × ℕ)) → P g → P (run o g cs)
    unfolding run
    run-rule g [] p = p
    run-rule g (c ∷ cs) p = run-rule (step o g c) cs (step-rule g c p)
