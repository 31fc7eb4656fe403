-- ===== src/Belief/Drill.antt =====
-- The history and the bound of the machine of internal/ai/belief/fsm.go.
use ops_captain.Base.{
  ℕ, ◌+◌, ◌≤◌, ◌<◌, ◌≡◌, refl, ◌≢◌, ◌⊎◌, String, Bool, true, none, List, [], ◌∷◌, arith, ◌↔◌,
  is_some,
}
use ops_captain.Belief.Types.{FsmState, state_drilling, FsmTransition}
use ops_captain.Belief.Types.{Node}
use ops_captain.Belief.Graph.{Outside, BeliefGraph}
use ops_captain.Belief.Fsm.{
  BeliefFsm, continue, steps_of, tick_step, decide, transition_to, drill_down, backtrack_to,
  mark_done,
}

pub data FsmCall : Type 0 where
  ticks : ℕ → FsmCall
  drills : String → FsmCall
  backtracks : ℕ → String → FsmCall
  marks : String → FsmCall

-- A history that leads from one state and level to another, each transition from where the one
-- before it ended.
abbrev pub Chain : FsmState → ℕ → List FsmTransition → FsmState → ℕ → Type 0
Chain s l [] s' l' = (s ≡ s') × (l ≡ l')
Chain s l (t ∷ ts) s' l' = (t.from ≡ s) × (t.from_level ≡ l) × Chain t.to t.to_level ts s' l'

module _ {F : Type 0} (o : Outside F) where
  unfoldable pub step : BeliefFsm F → FsmCall → BeliefFsm F
  step f (ticks k) = tick_step f k
  step f (drills reason) = drill_down o f reason
  step f (backtracks level reason) = (backtrack_to o f level reason).0
  step f (marks reason) = mark_done o f reason

  unfoldable pub run : BeliefFsm F → List FsmCall → BeliefFsm F
  run f [] = f
  run f (c ∷ cs) = run (step f c) cs

  pub record IsTraced (f : BeliefFsm F) : Type 0 where
    pub chain : Chain state_drilling 1 f.history f.state f.current_level
    pub positive : 0 < f.current_level
    pub counted : is_some (f.level_steps f.current_level) ≡ true

  -- Going back is accepted exactly from drilling, to a level from 1 to below the present one, and then
  -- moves there; otherwise nothing changes.
  pub backtrack_to-accepts :
      (f : BeliefFsm F) (level : ℕ) (reason : String)
      → (((backtrack_to o f level reason).1 ≡ none) ↔ (
          (f.state ≡ state_drilling)
          × (0 < level)
          × (level < f.current_level)
          × ((backtrack_to o f level reason).0.current_level ≡ level)))
        × (((backtrack_to o f level reason).1 ≡ none) ⊎ ((backtrack_to o f level reason).0 ≡ f))
  unfolding backtrack_to transition_to
  backtrack_to-accepts f level reason = ground arith

  unfoldable pub tick_all : BeliefFsm F → List ℕ → BeliefFsm F
  tick_all f [] = f
  tick_all f (k ∷ ks) = tick_all (tick_step f k) ks

  abbrev pub total : List ℕ → ℕ
  total [] = 0
  total (k ∷ ks) = k + total ks

  tick_all-steps :
      (f : BeliefFsm F) (ks : List ℕ)
      → let f' = tick_all f ks in
        (f'.current_level ≡ f.current_level)
        × (steps_of (f'.level_steps f'.current_level)
            ≡ steps_of (f.level_steps f.current_level) + total ks)
        × (f'.thresholds ≡ f.thresholds)
  unfolding tick_all tick_step
  tick_all-steps f [] = (refl, omega arith, refl)
  tick_all-steps f (k ∷ ks) = ground (arith, tick_all-steps (tick_step f k) ks)

  module _ (minus : F → F → F) (at_least : F → F → Bool) where
    decide-stops :
        (f : BeliefFsm F) (g : BeliefGraph F) (seen : List (Node F))
        → f.thresholds.max_steps ≤ steps_of (f.level_steps f.current_level)
        → decide o minus at_least f g seen ≢ continue
    unfolding decide
    decide-stops f g seen h = ground arith

    -- Once the steps taken at a level reach the limit, in whatever portions, the machine no longer
    -- decides to go on, whatever the graph says.
    pub tick_all-stops :
        (f : BeliefFsm F) (g : BeliefGraph F) (seen : List (Node F)) (ks : List ℕ)
        → f.thresholds.max_steps ≤ total ks
        → decide o minus at_least (tick_all f ks) g seen ≢ continue
    tick_all-stops f g seen ks h =
        let (level, steps, same) = tick_all-steps f ks in
        decide-stops (tick_all f ks) g seen (rw (same, steps) (omega arith))
