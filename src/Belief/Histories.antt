-- ===== src/Belief/Histories.antt =====
-- The graphs that internal/ai/belief/graph.go can come to, by mutations and by updates on a copy that other
-- callers interleave with.
use ops_captain.Base.{
  ℕ, ◌≤◌, ◌≡◌, refl, sym, ◌∙◌, String, inl, inr, Option, List, arith, keep, ◌==◌, Bool-cases,
  Option-cases,
}
use ops_captain.Base.Sort.{sort}
use ops_captain.Belief.Types.{GraphPolicy}
use ops_captain.Belief.Graph.{
  Outside, BeliefGraph, update_level_nodes, record_mutation, preflight_record,
  new_belief_graph_with_policy, normalize_graph_policy,
}
use ops_captain.Belief.Calls.{GraphCall, step, run, record_mutation-RecordKeeps}
use ops_captain.Belief.Rule.{IsRule, step-rule, run-rule}
use ops_captain.Belief.Invariant.{IsSound, IsSound-rule, records-IsSound, new-IsSound}
use ops_captain.Belief.Levels.{IsRanked, recorded-IsRanked, step-IsRanked}
use ops_captain.Belief.Update.{deep_copy, validate_resource_limits, commit, update_copy_on_write}

module _ {F : Type 0} (o : Outside F) where
  -- The graph as the commit of a copy writes it, before the recording.
  abbrev committed : BeliefGraph F → BeliefGraph F → BeliefGraph F
  committed g cp = update_level_nodes o (record g {
    nodes = cp.nodes;
    edges = cp.edges;
    start_signal_id = cp.start_signal_id;
    belief = cp.belief;
    current_step = cp.current_step;
  })

  -- An update leaves the graph, or commits the copy to a graph at the same step.
  update-cases :
      (Q : BeliefGraph F → Type 0) (g g_now : BeliefGraph F)
      (fn : BeliefGraph F → BeliefGraph F × Option String) (now : ℕ)
      → Q g_now
      → (g_now.current_step ≡ g.current_step
          → Q (
              record_mutation o
                (committed g_now (fn (deep_copy o g)).0)
                "copy_on_write_update"
                now))
      → Q (update_copy_on_write o g g_now fn now).0
  unfolding update_copy_on_write commit
  update-cases Q g g_now fn now same done =
      let cp = (fn (deep_copy o g)).0 in
      elim (Option-cases (fn (deep_copy o g)).1) [
        | inr (e, a) ↦ rw (a, update_copy_on_write) same
        | inl a ↦ elim (Option-cases cp.limit_err) [
          | inr (e, b) ↦ rw (a, update_copy_on_write) (rw b same)
          | inl b ↦ elim (Option-cases (validate_resource_limits o cp)) [
            | inr (e, c) ↦ rw (a, update_copy_on_write) (rw b (rw c same))
            | inl c ↦ elim (Bool-cases (g_now.current_step == g.current_step)) [
              | inr d ↦ rw (a, update_copy_on_write) (rw b (rw c (rw (d, commit) same)))
              | inl d ↦ elim (Option-cases (preflight_record o g_now cp.current_step)) [
                | inr (e, f) ↦
                    rw (a, update_copy_on_write) (rw b (rw c (rw (d, commit) (rw f same))))
                | inl f ↦
                    rw (a, update_copy_on_write)
                      (rw b (rw c (rw (d, commit) (rw f (done (ground arith))))))
              ]
            ]
          ]
        ]
      ]

  -- The graphs that are reached from a new one: by a mutation, and by an update whose function makes
  -- mutations on the copy of one graph that is reached, and is committed to another, which is the graph
  -- by then.
  pub data Reached (p : GraphPolicy) : BeliefGraph F → Type 0 where
    starts : Reached p (new_belief_graph_with_policy p)
    mutates : {g : BeliefGraph F} → Reached p g → (c : GraphCall F × ℕ) → Reached p (step o g c)
    updates :
        {g g_now : BeliefGraph F}
        → Reached p g
        → Reached p g_now
        → (own : List (GraphCall F × ℕ)) (failed : Option String) (now : ℕ)
        → Reached p (update_copy_on_write o g g_now (λ cp. (run o cp own, failed)) now).0

  -- Mutations keep the policy and do not take steps back.
  record IsLater (p : GraphPolicy) (n : ℕ) (g : BeliefGraph F) : Type 0 where
    policy : g.policy ≡ p
    later : n ≤ g.current_step

  records-IsLater :
      (p : GraphPolicy) (n : ℕ) (g : BeliefGraph F) (action : String) (now : ℕ)
      → IsLater p n g
      → IsLater p n (record_mutation o g action now)
  records-IsLater p n g action now h =
      let k = record_mutation-RecordKeeps o g action now in
      record { policy = k.policy ∙ h.policy; later = omega (arith, k.current_step, h.later) }

  IsLater-rule : (p : GraphPolicy) (n : ℕ) → IsRule o (IsLater p n)
  unfolding update_level_nodes
  IsLater-rule p n = record {
    limits = λ g e h. record { policy = h.policy; later = h.later };
    records = λ g action now h. records-IsLater p n g action now h;
    levels = λ g h. record { policy = h.policy; later = h.later };
    grows = λ g x room deep h. record { policy = h.policy; later = omega (arith, h.later) };
    changes =
        λ g id old new found level h. record { policy = h.policy; later = omega (arith, h.later) };
    edits = λ g f ends h. record { policy = h.policy; later = h.later };
    links = λ g e src dst room h. record { policy = h.policy; later = omega (arith, h.later) };
  }

  copy-IsSound : (g : BeliefGraph F) → IsSound o g → IsSound o (deep_copy o g)
  unfolding deep_copy
  copy-IsSound g s = record {
    nodes_fit = s.nodes_fit;
    edges_fit = s.edges_fit;
    depth_fits = s.depth_fits;
    snapshots_fit = omega arith;
    deltas_fit = omega arith;
    named = s.named;
    linked = s.linked;
    checkpoint_past = omega arith;
  }

  committed-IsSound :
      (g cp : BeliefGraph F)
      → IsSound o g
      → IsSound o cp
      → IsLater g.policy g.current_step cp
      → IsSound o (committed g cp)
  unfolding update_level_nodes
  committed-IsSound g cp s c h = record {
    nodes_fit = rw (← h.policy) c.nodes_fit;
    edges_fit = rw (← h.policy) c.edges_fit;
    depth_fits = rw (← h.policy) c.depth_fits;
    snapshots_fit = s.snapshots_fit;
    deltas_fit = s.deltas_fit;
    named = c.named;
    linked = c.linked;
    checkpoint_past = omega (arith, s.checkpoint_past, h.later);
  }

  -- The copy after the function's mutations, seen from a graph at the same step.
  copy-IsLater :
      (p : GraphPolicy) (g g_now : BeliefGraph F) (own : List (GraphCall F × ℕ))
      → g.policy ≡ p
      → g_now.policy ≡ p
      → g_now.current_step ≡ g.current_step
      → IsLater g_now.policy g_now.current_step (run o (deep_copy o g) own)
  unfolding deep_copy
  copy-IsLater p g g_now own a b e =
      run-rule o (IsLater-rule g_now.policy g_now.current_step) (deep_copy o g) own
        (record { policy = a ∙ sym b; later = omega (arith, e) })

  Reached-policy :
      {p : GraphPolicy} {g : BeliefGraph F} → Reached p g → g.policy ≡ normalize_graph_policy p
  unfolding new_belief_graph_with_policy normalize_graph_policy update_level_nodes
  Reached-policy starts = refl
  Reached-policy {p} (mutates {g} r c) =
      (step-rule o (IsLater-rule (normalize_graph_policy p) 0) g c
        (record { policy = Reached-policy r; later = omega arith })).policy
  Reached-policy {p} (updates {g} {g_now} r r_now own failed now) =
      update-cases (λ h. h.policy ≡ normalize_graph_policy p) g g_now (λ cp. (run o cp own, failed))
        now (Reached-policy r_now)
        (λ e.
          (record_mutation-RecordKeeps o (committed g_now (run o (deep_copy o g) own))
            "copy_on_write_update" now).policy
          ∙ Reached-policy r_now)

  -- After any mutations and any updates on copies, interleaved, on a new graph: nodes, edges, depth,
  -- snapshots and deltas are within the limits of the policy, the name of every node is that of a step,
  -- no later than the last, and both ends of every edge are nodes.
  pub Reached-IsSound : {p : GraphPolicy} {g : BeliefGraph F} → Reached p g → IsSound o g
  Reached-IsSound {p} starts = new-IsSound o p
  Reached-IsSound (mutates {g} r c) = step-rule o (IsSound-rule o) g c (Reached-IsSound r)
  Reached-IsSound {p} (updates {g} {g_now} r r_now own failed now) =
      update-cases (IsSound o) g g_now (λ cp. (run o cp own, failed)) now (Reached-IsSound r_now)
        (λ e. records-IsSound o _ "copy_on_write_update" now (
          committed-IsSound g_now (run o (deep_copy o g) own) (Reached-IsSound r_now)
            (run-rule o (IsSound-rule o) (deep_copy o g) own (copy-IsSound g (Reached-IsSound r)))
            (copy-IsLater (normalize_graph_policy p) g g_now own (Reached-policy r)
              (Reached-policy r_now) e)))

  pub Reached-IsRanked : {p : GraphPolicy} {g : BeliefGraph F} → Reached p g → IsRanked o g
  unfolding new_belief_graph_with_policy update_level_nodes sort keep
  Reached-IsRanked starts = refl
  Reached-IsRanked (mutates {g} r c) = step-IsRanked o g c (Reached-IsRanked r)
  Reached-IsRanked (updates {g} {g_now} r r_now own failed now) =
      update-cases (IsRanked o) g g_now (λ cp. (run o cp own, failed)) now (Reached-IsRanked r_now)
        (λ e.
          recorded-IsRanked o (committed g_now (run o (deep_copy o g) own)) "copy_on_write_update"
            now refl)
