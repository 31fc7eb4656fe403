-- ===== src/Belief/Queries.antt =====
-- The methods of internal/ai/belief/graph.go that read the graph.
use ops_captain.Base.{
  ℕ, String, Bool, true, false, ◌&&◌, Option, none, some, List, [], ◌∷◌, ◌==◌, str_eq,
  if◌then◌else◌, length, keep, count,
}
use ops_captain.Base.Dict.{Dict, lookup, has, values}
use ops_captain.Base.Sort.{sort}
use ops_captain.Belief.Types.{
  EdgeType, support, refute, refines, AttrValue, text, instant, other_value, Node, Edge, Frontier,
  LevelNode,
}
use ops_captain.Belief.Graph.{Outside, BeliefGraph, is_active, is_hypothesis}

abbrev pub is_support : EdgeType → Bool
is_support support = true
is_support _ = false

abbrev pub is_refute : EdgeType → Bool
is_refute refute = true
is_refute _ = false

abbrev pub is_refines : EdgeType → Bool
is_refines refines = true
is_refines _ = false

module _ {F : Type 0} where
  unfoldable pub get_active_node_copies : BeliefGraph F → List (Node F)
  get_active_node_copies g = keep (λ n. is_active n.status) (values g.nodes)

  unfoldable pub get_active_edge_copies : BeliefGraph F → List (Edge F)
  get_active_edge_copies g = keep (λ e. is_active e.status) (values g.edges)

  unfoldable pub has_node : BeliefGraph F → String → Bool
  has_node g node_id = has node_id g.nodes

  -- The active edges of a kind into a node.
  abbrev pub into : (EdgeType → Bool) → String → Edge F → Bool
  into kind node_id e = str_eq e.dst node_id && is_active e.status && kind e.kind

module _ {F : Type 0} (o : Outside F) where
  -- By score, then by id.
  abbrev pub node_before : Node F → Node F → Bool
  node_before a b =
      if o.equal a.score b.score then o.text_less a.id b.id else o.greater a.score b.score

  -- `seen` are the nodes of the graph in the order in which this loop visits them.
  unfoldable pub get_active_hypothesis_copies : (seen : List (Node F)) → ℕ → List (Node F)
  get_active_hypothesis_copies seen level =
      sort node_before
        (keep (λ n. is_hypothesis n.kind && is_active n.status && n.level == level) seen)

  -- `safeWhy`; how a value that is no text reads is left to `other`.
  safe_why : (AttrValue → String) → Dict AttrValue → String
  safe_why other attrs = elim (lookup "why" attrs) [
    | none ↦ ""
    | some (text s) ↦ s
    | some (instant t) ↦ other (instant t)
    | some (other_value v) ↦ other (other_value v)
  ]

  frontier_of : (AttrValue → String) → BeliefGraph F → Node F → Frontier F
  unfolding safe_why
  frontier_of other g top = record {
    node_id = top.id;
    label = top.label;
    why = safe_why other top.attrs;
    score = top.score;
    level = top.level;
    supports = count (into is_support top.id) (values g.edges);
    refutes = count (into is_refute top.id) (values g.edges);
  }

  -- `extractFrontierInternal`
  unfoldable pub extract_frontier :
      (AttrValue → String) → BeliefGraph F → (seen : List (Node F)) → ℕ → Option (Frontier F)
  unfolding get_active_hypothesis_copies frontier_of
  extract_frontier other g seen level = elim (get_active_hypothesis_copies seen level) [
    | [] ↦ none
    | top ∷ rest ↦ some (frontier_of other g top)
  ]

  parents_of : BeliefGraph F → String → List (Edge F) → List (Node F)
  parents_of g node_id [] = []
  parents_of g node_id (e ∷ es) =
      let rest = parents_of g node_id es in
      if into is_refines node_id e
      then elim (lookup e.src g.nodes) [
        | none ↦ rest
        | some p ↦ if is_hypothesis p.kind && is_active p.status then p ∷ rest else rest
      ]
      else rest

  unfoldable pub get_active_refines_parent_copies : BeliefGraph F → String → List (Node F)
  unfolding parents_of
  get_active_refines_parent_copies g node_id =
      sort (λ a b. o.text_less a.id b.id) (parents_of g node_id (values g.edges))

  first_is : String → List (LevelNode F) → Bool
  first_is node_id [] = false
  first_is node_id (n ∷ ns) = str_eq n.node_id node_id

  unfoldable pub is_highest_conf_in_level : BeliefGraph F → String → Bool
  unfolding first_is
  is_highest_conf_in_level g node_id = elim (lookup node_id g.nodes) [
    | none ↦ false
    | some node ↦
        is_hypothesis node.kind
        && is_active node.status
        && first_is node_id (g.level_nodes node.level)
  ]

  -- `generateBeliefTextInternal`
  unfoldable pub generate_belief_text : BeliefGraph F → BeliefGraph F
  unfolding get_active_node_copies
  generate_belief_text g =
      let parts = get_active_node_copies g in
      record g {
        belief =
            if length parts == 0 then "No active nodes in belief graph." else o.belief_text parts;
      }
