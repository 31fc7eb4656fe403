-- ===== src/Belief/Invariant.antt =====
-- What the mutations of internal/ai/belief/graph.go keep: the limits of the policy, the
-- names of the nodes, the ends of the edges, and the levels.
use text.Mathlib.TextLemmas.{append_cancel_left}
use ops_captain.Base.{
  ℕ, ◌+◌, ◌≤◌, ◌≡◌, refl, String, true, false, List, arith, length, length-append, length-map,
}
use ops_captain.Base.Dict.{
  Dict, insert, has, length-insert, lookup-insert, AllEntries, AllEntries-insert, AllEntries-lookup,
  AllEntries-mono, AllEntries-map_values, has-AllEntries,
}
use ops_captain.Belief.Types.{Node, Edge, GraphPolicy}
use ops_captain.Belief.Graph.{
  Outside, BeliefGraph, edge_key, update_level_nodes, record_mutation, take_snapshot, append_delta,
  new_belief_graph_with_policy,
}
use ops_captain.Belief.Mutations.{node_name}
use ops_captain.Belief.Calls.{GraphCall, run, record_mutation-cases}
use ops_captain.Belief.Rule.{IsRule, run-rule}

module _ {F : Type 0} (o : Outside F) where
  -- The name of a node says at which step up to `n` it was added.
  abbrev pub Named : ℕ → String → Node F → Type 0
  Named n k v = (m : ℕ) × (m ≤ n) × (k ≡ node_name o m)

  abbrev pub Shallow : ℕ → String → Node F → Type 0
  Shallow d k v = v.level ≤ d

  abbrev pub Linked : Dict (Node F) → String → Edge F → Type 0
  Linked nodes k e = (has e.src nodes ≡ true) × (has e.dst nodes ≡ true)

  pub record IsSound (g : BeliefGraph F) : Type 0 where
    pub nodes_fit : length g.nodes ≤ g.policy.max_nodes
    pub edges_fit : length g.edges ≤ g.policy.max_edges
    pub depth_fits : AllEntries (Shallow g.policy.max_depth) g.nodes
    pub snapshots_fit : length g.snapshots ≤ g.policy.max_snapshots
    pub deltas_fit : length g.deltas ≤ g.policy.max_deltas
    pub named : AllEntries (Named g.current_step) g.nodes
    pub linked : AllEntries (Linked g.nodes) g.edges
    pub checkpoint_past : g.last_checkpoint_step ≤ g.current_step

  Named-later : (n : ℕ) (m : Dict (Node F)) → AllEntries (Named n) m → AllEntries (Named (n + 1)) m
  Named-later n m a =
      AllEntries-mono (Named n) (Named (n + 1)) m (λ k v (i, le, e). (i, omega arith, e)) a

  has-insert :
      (k j : String) (v : Node F) (m : Dict (Node F)) → has j m ≡ true → has j (insert k v m) ≡ true
  has-insert k j v m h = ground (arith, lookup-insert k j v m)

  Linked-insert :
      (k : String) (v : Node F) (m : Dict (Node F)) (es : Dict (Edge F))
      → AllEntries (Linked m) es
      → AllEntries (Linked (insert k v m)) es
  Linked-insert k v m es a =
      AllEntries-mono (Linked m) (Linked (insert k v m)) es
        (λ j e (s, d). (has-insert k e.src v m s, has-insert k e.dst v m d)) a

  pub records-IsSound :
      (g : BeliefGraph F) (action : String) (now : ℕ)
      → IsSound g
      → IsSound (record_mutation o g action now)
  unfolding take_snapshot append_delta
  records-IsSound g action now s =
      record_mutation-cases o IsSound g action now s
        (λ e. record {
          nodes_fit = s.nodes_fit;
          edges_fit = s.edges_fit;
          depth_fits = s.depth_fits;
          snapshots_fit = s.snapshots_fit;
          deltas_fit = s.deltas_fit;
          named = s.named;
          linked = s.linked;
          checkpoint_past = s.checkpoint_past;
        })
        (λ h. record {
          nodes_fit = s.nodes_fit;
          edges_fit = s.edges_fit;
          depth_fits = s.depth_fits;
          snapshots_fit = omega (arith, length-append {0} g.snapshots);
          deltas_fit = omega arith;
          named = s.named;
          linked = s.linked;
          checkpoint_past = omega arith;
        })
        (λ h. record {
          nodes_fit = s.nodes_fit;
          edges_fit = s.edges_fit;
          depth_fits = s.depth_fits;
          snapshots_fit = s.snapshots_fit;
          deltas_fit = omega (arith, length-append {0} g.deltas);
          named = s.named;
          linked = s.linked;
          checkpoint_past = s.checkpoint_past;
        })

  pub IsSound-rule : IsRule o IsSound
  unfolding update_level_nodes
  IsSound-rule = record {
    limits = λ g e s. record {
      nodes_fit = s.nodes_fit;
      edges_fit = s.edges_fit;
      depth_fits = s.depth_fits;
      snapshots_fit = s.snapshots_fit;
      deltas_fit = s.deltas_fit;
      named = s.named;
      linked = s.linked;
      checkpoint_past = s.checkpoint_past;
    };
    records = records-IsSound;
    levels = λ g s. record {
      nodes_fit = s.nodes_fit;
      edges_fit = s.edges_fit;
      depth_fits = s.depth_fits;
      snapshots_fit = s.snapshots_fit;
      deltas_fit = s.deltas_fit;
      named = s.named;
      linked = s.linked;
      checkpoint_past = s.checkpoint_past;
    };
    grows = λ g n room deep s. record {
      nodes_fit =
          ground (arith, length-insert (node_name o (g.current_step + 1)) n g.nodes, s.nodes_fit);
      edges_fit = s.edges_fit;
      depth_fits = AllEntries-insert (Shallow g.policy.max_depth) _ n g.nodes deep s.depth_fits;
      snapshots_fit = s.snapshots_fit;
      deltas_fit = s.deltas_fit;
      named =
          AllEntries-insert (Named (g.current_step + 1)) _ n g.nodes
            (g.current_step + 1, omega arith, refl) (Named-later g.current_step g.nodes s.named);
      linked = Linked-insert _ n g.nodes g.edges s.linked;
      checkpoint_past = omega (arith, s.checkpoint_past);
    };
    changes = λ g id old new found level s. record {
      nodes_fit = ground (arith, length-insert id new g.nodes, s.nodes_fit);
      edges_fit = s.edges_fit;
      depth_fits =
          AllEntries-insert (Shallow g.policy.max_depth) id new g.nodes
            (omega (
              arith,
              AllEntries-lookup (Shallow g.policy.max_depth) id old g.nodes s.depth_fits found,
            ))
            s.depth_fits;
      snapshots_fit = s.snapshots_fit;
      deltas_fit = s.deltas_fit;
      named =
          AllEntries-insert (Named (g.current_step + 1)) id new g.nodes
            (AllEntries-lookup (Named (g.current_step + 1)) id old g.nodes
              (Named-later g.current_step g.nodes s.named) found)
            (Named-later g.current_step g.nodes s.named);
      linked = Linked-insert id new g.nodes g.edges s.linked;
      checkpoint_past = omega (arith, s.checkpoint_past);
    };
    edits = λ g f ends s. record {
      nodes_fit = s.nodes_fit;
      edges_fit = omega (
        arith,
        length-map {B = String × Edge F} (λ (e : String × Edge F). (e.0, f e.1)) g.edges,
        s.edges_fit,
      );
      depth_fits = s.depth_fits;
      snapshots_fit = s.snapshots_fit;
      deltas_fit = s.deltas_fit;
      named = s.named;
      linked =
          AllEntries-map_values (Linked g.nodes) f g.edges
            (λ k e (a, b). (rw (ends e).0 a, rw (ends e).1 b)) s.linked;
      checkpoint_past = s.checkpoint_past;
    };
    links = λ g e src dst room s. record {
      nodes_fit = s.nodes_fit;
      edges_fit = ground (arith, length-insert (edge_key e.src e.dst) e g.edges, s.edges_fit);
      depth_fits = s.depth_fits;
      snapshots_fit = s.snapshots_fit;
      deltas_fit = s.deltas_fit;
      named = Named-later g.current_step g.nodes s.named;
      linked = AllEntries-insert (Linked g.nodes) _ e g.edges (src, dst) s.linked;
      checkpoint_past = omega (arith, s.checkpoint_past);
    };
  }

  pub new-IsSound : (p : GraphPolicy) → IsSound (new_belief_graph_with_policy p)
  unfolding new_belief_graph_with_policy
  new-IsSound p = record {
    nodes_fit = omega arith;
    edges_fit = omega arith;
    depth_fits = tt;
    snapshots_fit = omega arith;
    deltas_fit = omega arith;
    named = tt;
    linked = tt;
    checkpoint_past = omega arith;
  }

  pub run-IsSound :
      (p : GraphPolicy) (cs : List (GraphCall F × ℕ))
      → IsSound (run o (new_belief_graph_with_policy p) cs)
  run-IsSound p cs = run-rule o IsSound-rule (new_belief_graph_with_policy p) cs (new-IsSound p)

  -- With decimals that differ for different numbers, the name for the next step is not in use.
  pub node_name-fresh :
      (decimal_injective : (m n : ℕ) → o.decimal m ≡ o.decimal n → m ≡ n) (g : BeliefGraph F)
      → IsSound g
      → has (node_name o (g.current_step + 1)) g.nodes ≡ false
  node_name-fresh inj g s =
      has-AllEntries (Named g.current_step) (node_name o (g.current_step + 1)) g.nodes s.named
        (λ v (m, le, e).
          omega (arith, inj (g.current_step + 1) m (append_cancel_left "node-" _ _ e)))
