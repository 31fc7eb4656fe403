-- ===== src/Belief/Scenarios.antt =====
-- Runs of the graph and of the machine of internal/ai/belief, with scores that are numbers and
-- decimals that are tallies.
use text.Mathlib.TextLemmas.{length-append}
use Prim.Native.String.{count}
use Prim.Native.String.{◌++◌ as join}
use ops_captain.Base.{
  ℕ, zero, suc, ◌+◌, ◌≤◌, ◌≡◌, refl, sym, ap, ◌∙◌, ◌⊎◌, String, false, none, some, List, [], ◌∷◌,
  arith, ltb, ◌==◌, if◌then◌else◌, str_eq, length,
}
use ops_captain.Base.Dict.{lookup, has, insert, values}
use ops_captain.Belief.Types.{
  AttrValue, hypothesis, evidence, support, Node, GraphPolicy, FsmThresholds, active,
}
use ops_captain.Belief.Graph.{
  Outside, BeliefGraph, over, new_belief_graph_with_policy, normalize_graph_policy,
  preflight_record, record_mutation, take_snapshot, append_delta, upserts, update_level_nodes,
  refresh_recorded_hashes, prepare_mutation,
}
use ops_captain.Belief.Mutations.{add_node, add_edge, when_ready}
use ops_captain.Belief.Calls.{GraphCall, adds_node, adds_edge, step, run}
use ops_captain.Belief.Invariant.{IsSound, run-IsSound}
use ops_captain.Belief.Effects.{add_node-cases}
use ops_captain.Belief.Queries.{extract_frontier}
use ops_captain.Belief.Fsm.{BeliefFsm, new_belief_fsm, top_hypos}
use ops_captain.Belief.Drill.{backtrack_to-accepts, tick_all, tick_all-stops}
use ops_captain.Belief.Drill
use ops_captain.Belief.Histories.{Reached, starts, mutates, updates, Reached-IsSound}
use ops_captain.Belief.Ranks.{IsOrder, IsLevel, Best, Reorders, Reached-IsLevel, frontier-Best}
use ops_captain.Belief.Update.{
  deep_copy, update_copy_on_write, commit, validate_resource_limits, resource_stats, max_level,
}

abbrev tally : ℕ → String
tally zero = ""
tally (suc n) = join "i" (tally n)

count-tally : (n : ℕ) → count (tally n) ≡ n
count-tally zero = refl
count-tally (suc n) = omega (arith, length-append "i" (tally n), count-tally n)

tally_injective : (m n : ℕ) → tally m ≡ tally n → m ≡ n
tally_injective m n h = sym (count-tally m) ∙ ap count h ∙ count-tally n

abbrev pub here : Outside ℕ
here = record {
  greater = λ a b. ltb b a;
  equal = λ a b. a == b;
  text_less = λ a b. false;
  decimal = tally;
  node_hash = λ n. n.label;
  edge_hash = λ e. e.derivation_type;
  belief_text = λ ns. "";
  history_bytes = λ ss ds. length ss + length ds;
  one = 100;
}

abbrev policy : GraphPolicy
policy = record {
  checkpoint_interval = 10;
  max_nodes = 8;
  max_edges = 8;
  max_depth = 2;
  max_snapshots = 4;
  max_deltas = 3;
}

abbrev link : List (GraphCall ℕ × ℕ)
link = (adds_edge "node-i" "node-ii" support 90 "rule", 7) ∷ []

abbrev found : List (GraphCall ℕ × ℕ)
found =
    (adds_node hypothesis "disk full" 60 1 [] none, 5)
    ∷ (adds_node hypothesis "leak" 80 1 [] none, 6)
    ∷ []

abbrev calls : List (GraphCall ℕ × ℕ)
calls =
    (adds_node hypothesis "disk full" 60 1 [] none, 5)
    ∷ (adds_node hypothesis "leak" 80 1 [] none, 6)
    ∷ (adds_edge "node-i" "node-ii" support 90 "rule", 7)
    ∷ []

abbrev pub empty : BeliefGraph ℕ
empty = new_belief_graph_with_policy policy

abbrev grown : BeliefGraph ℕ
grown = run here empty calls

-- While one caller links the two nodes on a copy, another finds no reason to change anything.
abbrev linked : BeliefGraph ℕ
linked =
    (update_copy_on_write here {E = String} (run here empty found) (run here empty found)
      (λ cp. (run here cp link, none)) 7).0

found-Reached : Reached here policy (run here empty found)
unfolding run
found-Reached =
    mutates (mutates starts (adds_node hypothesis "disk full" 60 1 [] none, 5))
      (adds_node hypothesis "leak" 80 1 [] none, 6)

linked-Reached : Reached here policy linked
linked-Reached = updates found-Reached found-Reached link none 7

Reached-IsSound_example : IsSound here linked
Reached-IsSound_example = Reached-IsSound here linked-Reached

-- Both hypotheses and the edge are in the graph.
linked_sizes : (length linked.nodes ≡ 2) × (length linked.edges ≡ 1)
unfolding update_copy_on_write commit deep_copy validate_resource_limits resource_stats max_level
    preflight_record record_mutation take_snapshot append_delta upserts update_level_nodes
    refresh_recorded_hashes new_belief_graph_with_policy normalize_graph_policy run step add_node
    add_edge when_ready prepare_mutation insert lookup
linked_sizes = (refl, refl)

here-IsOrder : IsOrder here
here-IsOrder = record {
  equal_sound = λ a b h. ground arith;
  equal_refl = λ a. ground arith;
  greater_asym = λ a b h. ground arith;
  greater_trans = λ a b c h k. ground arith;
  greater_total = λ a b h k. ground arith;
  text_asym = λ a b h. refl;
  text_trans = λ a b c h k. refl;
}

Reached-IsLevel_example : IsLevel here (values linked.nodes) 1 (linked.level_nodes 1)
Reached-IsLevel_example = Reached-IsLevel here here-IsOrder 1 linked-Reached

abbrev shown : AttrValue → String
shown v = ""

same_order : Reorders here (values linked.nodes) (values linked.nodes)
same_order n = (λ h. h, λ h. h)

frontier-Best_example :
    Best here (values linked.nodes) 1 (extract_frontier here shown linked (values linked.nodes) 1)
    × IsLevel here (values linked.nodes) 1 (top_hypos here (values linked.nodes) 1)
frontier-Best_example =
    frontier-Best here here-IsOrder shown linked (values linked.nodes) (values linked.nodes) 1
      same_order same_order

-- A graph that met a limit.
abbrev stopped : BeliefGraph ℕ
stopped = record empty { limit_err = some (over here "nodes" 8 9) }

add_node-cases_example :
    let (g', id) = add_node here grown evidence "df -h" 70 0 [] none 9 in
    ((id ≡ "") × (g'.nodes ≡ grown.nodes) × (g'.edges ≡ grown.edges))
    ⊎ ((n : Node ℕ) × (n.kind ≡ evidence)
        × (n.label ≡ "df -h")
        × (n.score ≡ 70)
        × (n.level ≡ 0)
        × (n.status ≡ active)
        × (has id grown.nodes ≡ false)
        × (length g'.nodes ≡ length grown.nodes + 1)
        × ((j : String)
            → lookup j g'.nodes ≡ (if str_eq id j then some n else lookup j grown.nodes))
        × (g'.edges ≡ grown.edges))
add_node-cases_example =
    add_node-cases here tally_injective grown evidence "df -h" 70 0 [] none 9
      (run-IsSound here policy calls)

abbrev thresholds : FsmThresholds ℕ
thresholds = record { gap_delta = 20; min_support = 2; max_steps = 5 }

abbrev machine : BeliefFsm ℕ
machine = record (new_belief_fsm thresholds) { current_level = 3 }

enough : machine.thresholds.max_steps ≤ 5
unfolding new_belief_fsm
enough = omega arith
