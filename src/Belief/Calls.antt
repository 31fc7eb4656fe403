-- ===== src/Belief/Calls.antt =====
-- The calls on a belief graph as data, and a rule for what every call keeps.
use ops_captain.Base.{
  ℕ, ◌<◌, ◌||◌, ◌≡◌, refl, inl, inr, String, true, Option, some, List, [], ◌∷◌, arith, leb, length,
  is_some, Bool-cases,
}
use ops_captain.Base.Dict.{Dict}
use ops_captain.Belief.Types.{
  NodeType, EdgeType, AttrValue, EvidenceSource, GraphResourceLimitError,
}
use ops_captain.Belief.Graph.{
  Outside, BeliefGraph, record_mutation, prepare_mutation, take_snapshot, append_delta,
  is_checkpoint,
}
use ops_captain.Belief.Mutations.{
  add_node, update_node, add_edge, retract_node, supersede_node, change_step, when_ready,
}

pub data GraphCall (F : Type 0) : Type 0 where
  adds_node : NodeType → String → F → ℕ → Dict AttrValue → Option (EvidenceSource F) → GraphCall F
  updates_node : String → F → String → GraphCall F
  adds_edge : String → String → EdgeType → F → String → GraphCall F
  retracts_node : String → String → String → GraphCall F
  supersedes_node : String → String → String → GraphCall F

module _ {F : Type 0} (o : Outside F) where
  unfoldable pub step : BeliefGraph F → GraphCall F × ℕ → BeliefGraph F
  step g (adds_node kind label score level attrs source, now) =
      (add_node o g kind label score level attrs source now).0
  step g (updates_node id score why, now) = update_node o g id score why now
  step g (adds_edge src dst kind confidence derivation, now) =
      add_edge o g src dst kind confidence derivation now
  step g (retracts_node id by reason, now) = retract_node o g id by reason now
  step g (supersedes_node old new reason, now) = supersede_node o g old new reason now

  unfoldable pub run : BeliefGraph F → List (GraphCall F × ℕ) → BeliefGraph F
  run g [] = g
  run g (c ∷ cs) = run (step g c) cs

  -- What the recording of a mutation leaves as it is.
  pub record RecordKeeps (g g' : BeliefGraph F) : Type 0 where
    pub nodes : g'.nodes ≡ g.nodes
    pub edges : g'.edges ≡ g.edges
    pub level_nodes : g'.level_nodes ≡ g.level_nodes
    pub policy : g'.policy ≡ g.policy
    pub current_step : g'.current_step ≡ g.current_step
    pub recording_disabled : g'.recording_disabled ≡ g.recording_disabled

  -- What recording a mutation comes to: nothing, a limit, a snapshot or a delta.
  pub record_mutation-cases {ℓ} :
      (Q : BeliefGraph F → Type ℓ) (g : BeliefGraph F) (action : String) (now : ℕ)
      → Q g
      → ((e : GraphResourceLimitError) → Q (record g { limit_err = some e }))
      → (length g.snapshots < g.policy.max_snapshots → Q (take_snapshot o g action now))
      → (length g.deltas < g.policy.max_deltas → Q (append_delta o g action now))
      → Q (record_mutation o g action now)
  unfolding record_mutation
  record_mutation-cases Q g action now same limit snap delta =
      elim (Bool-cases (g.recording_disabled || is_some g.limit_err)) [
        | inl e ↦ rw (e, record_mutation) same
        | inr e ↦ elim (Bool-cases (is_checkpoint o g g.current_step)) [
          | inl c ↦ elim (Bool-cases (leb g.policy.max_snapshots (length g.snapshots))) [
            | inl full ↦ rw (e, record_mutation) (rw c (rw full (limit _)))
            | inr room ↦ rw (e, record_mutation) (rw c (rw room (snap (ground arith))))
          ]
          | inr c ↦ elim (Bool-cases (leb g.policy.max_deltas (length g.deltas))) [
            | inl full ↦ rw (e, record_mutation) (rw c (rw full (limit _)))
            | inr room ↦ rw (e, record_mutation) (rw c (rw room (delta (ground arith))))
          ]
        ]
      ]

  pub record_mutation-RecordKeeps :
      (g : BeliefGraph F) (action : String) (now : ℕ)
      → RecordKeeps g (record_mutation o g action now)
  unfolding record_mutation take_snapshot append_delta
  record_mutation-RecordKeeps g action now = ground arith

  -- A graph in which a limit was met takes no mutation any more.
  pub step-limit_err :
      (g : BeliefGraph F) (c : GraphCall F × ℕ) → is_some g.limit_err ≡ true → step g c ≡ g
  unfolding step add_node update_node add_edge retract_node supersede_node change_step when_ready
      prepare_mutation
  step-limit_err g (adds_node kind label score level attrs source, now) h = ground arith
  step-limit_err g (updates_node id score why, now) h = ground arith
  step-limit_err g (adds_edge src dst kind confidence derivation, now) h = ground arith
  step-limit_err g (retracts_node id by reason, now) h = ground arith
  step-limit_err g (supersedes_node old new reason, now) h = ground arith

  -- A graph in which a limit was met is left as it is by any sequence of mutations.
  pub run-limit_err :
      (g : BeliefGraph F) (cs : List (GraphCall F × ℕ)) → is_some g.limit_err ≡ true → run g cs ≡ g
  unfolding run
  run-limit_err g [] h = refl
  run-limit_err g (c ∷ cs) h = rw (step-limit_err g c h, run) (run-limit_err g cs h)
