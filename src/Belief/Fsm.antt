-- ===== src/Belief/Fsm.antt =====
-- The machine of internal/ai/belief/fsm.go that drills into the levels of the graph.
use Prim.Native.String.{◌++◌ as join}
use ops_captain.Base.{
  ℕ, ◌+◌, String, Bool, true, false, ◌&&◌, ◌||◌, Option, none, some, List, [], ◌∷◌, ◌++◌, ltb, leb,
  ◌==◌, if◌then◌else◌, count, is_some, map, keep, not,
}
use ops_captain.Base.Dict.{values}
use ops_captain.Base.Sort.{sort}
use ops_captain.Belief.Types.{
  FsmState, state_drilling, state_done, FsmTransition, FsmThresholds, LevelNode, Node,
}
use ops_captain.Belief.Graph.{Outside, BeliefGraph, is_hypothesis, is_active}
use ops_captain.Belief.Queries.{into, is_support}

-- The steps taken at each level, for the levels that the map holds.
pub record BeliefFsm (F : Type 0) : Type 0 where
  pub state : FsmState
  pub current_level : ℕ
  pub level_steps : ℕ → Option ℕ
  pub thresholds : FsmThresholds F
  pub history : List FsmTransition
  pub total_steps : ℕ

pub data Action : Type 0 where
  done report continue : Action

pub data BacktrackError : Type 0 where
  wrong_state wrong_level : BacktrackError

abbrev pub is_drilling : FsmState → Bool
is_drilling state_drilling = true
is_drilling _ = false

abbrev pub is_done : FsmState → Bool
is_done state_done = true
is_done _ = false

-- A map's read of a missing key is 0.
abbrev pub steps_of : Option ℕ → ℕ
steps_of none = 0
steps_of (some n) = n

abbrev pub put : (ℕ → Option ℕ) → ℕ → ℕ → ℕ → Option ℕ
put m k v j = if j == k then some v else m j

module _ {F : Type 0} where
  unfoldable pub new_belief_fsm : FsmThresholds F → BeliefFsm F
  new_belief_fsm thresholds = record {
    state = state_drilling;
    current_level = 1;
    level_steps = put (λ level. none) 1 0;
    thresholds = thresholds;
    history = [];
    total_steps = 0;
  }

  unfoldable pub is_final_state : BeliefFsm F → Bool
  is_final_state f = is_done f.state

  unfoldable pub tick_step : BeliefFsm F → ℕ → BeliefFsm F
  tick_step f k = record f {
    total_steps = f.total_steps + k;
    level_steps = put f.level_steps f.current_level (steps_of (f.level_steps f.current_level) + k);
  }

  -- `countSupport`
  unfoldable pub count_support : BeliefGraph F → String → ℕ
  count_support g id = count (into is_support id) (values g.edges)

module _ {F : Type 0} (o : Outside F) where
  abbrev pub hypo_before : LevelNode F → LevelNode F → Bool
  hypo_before a b =
      if o.equal a.confidence b.confidence
      then o.text_less a.node_id b.node_id
      else o.greater a.confidence b.confidence

  -- `topHypos`, on the nodes of the graph in the order in which this loop visits them.
  unfoldable pub top_hypos : (seen : List (Node F)) → ℕ → List (LevelNode F)
  top_hypos seen level = sort hypo_before (
      map (λ n. record { node_id = n.id; confidence = n.score })
        (keep (λ n. is_hypothesis n.kind && is_active n.status && n.level == level) seen))

module _ {F : Type 0} (o : Outside F) (minus : F → F → F) (at_least : F → F → Bool) where
  gap : LevelNode F → List (LevelNode F) → F
  gap first [] = first.confidence
  gap first (second ∷ rest) = minus first.confidence second.confidence

  decide_among : BeliefFsm F → BeliefGraph F → List (LevelNode F) → Action
  unfolding gap count_support
  decide_among f g [] = report
  decide_among f g (first ∷ rest) =
      if at_least (gap first rest) f.thresholds.gap_delta
        && leb f.thresholds.min_support (count_support g first.node_id)
      then report
      else if leb f.thresholds.max_steps (steps_of (f.level_steps f.current_level))
      then report
      else continue

  -- `Decide`; the reason is left out, and `seen` is as for `top_hypos`.
  unfoldable pub decide : BeliefFsm F → BeliefGraph F → (seen : List (Node F)) → Action
  unfolding top_hypos decide_among
  decide f g seen =
      if is_done f.state then done else decide_among f g (top_hypos o seen f.current_level)

module _ {F : Type 0} (o : Outside F) where
  -- `transitionTo`
  unfoldable pub transition_to :
      BeliefFsm F → FsmState → (from_level to_level : ℕ) → String → BeliefFsm F
  transition_to f s from_level to_level reason = record f {
    history =
        f.history
        ++ record {
          from = f.state;
          to = s;
          from_level = from_level;
          to_level = to_level;
          reason = reason;
          step_id = join "step-" (o.decimal f.total_steps);
        }
          ∷ [];
    state = s;
  }

  unfoldable pub drill_down : BeliefFsm F → String → BeliefFsm F
  unfolding transition_to
  drill_down f reason =
      let to = f.current_level + 1 in
      transition_to (record f { current_level = to; level_steps = put f.level_steps to 0 })
        state_drilling f.current_level to reason

  unfoldable pub backtrack_to : BeliefFsm F → ℕ → String → BeliefFsm F × Option BacktrackError
  unfolding transition_to
  backtrack_to f level reason =
      if not (is_drilling f.state)
      then (f, some wrong_state)
      else if ltb level 1 || leb f.current_level level
      then (f, some wrong_level)
      else (
        transition_to
            (record f {
              current_level = level;
              level_steps =
                  if is_some (f.level_steps level)
                  then f.level_steps
                  else put f.level_steps level 0;
            })
            state_drilling f.current_level level reason,
        none,
      )

  unfoldable pub mark_done : BeliefFsm F → String → BeliefFsm F
  unfolding transition_to
  mark_done f reason = transition_to f state_done f.current_level f.current_level reason
