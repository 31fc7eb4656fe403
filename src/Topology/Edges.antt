-- ===== src/Topology/Edges.antt =====
-- The edges that internal/ai/cmdb/topology.go merges are distinct.
use ops_captain.Base.{
  ◌≡◌, refl, sym, ap, ◌∙◌, inl, inr, String, Bool, true, false, List, [], ◌∷◌, ◌++◌, arith,
  if◌then◌else◌, map, Bool-cases,
}
use ops_captain.Base.Dict.{Dict}
use ops_captain.Base.Sort.{elem, Distinct, elem-snoc, Distinct-snoc}
use ops_captain.Topology.Merge.{
  DependencyEdge, TopologyEdge, edge_key, EdgeSet, add_edge, is_overridden, external_edges,
  edges_of, override_edges,
}

abbrev pub keys_of : List TopologyEdge → List String
keys_of = map (λ e. edge_key e.source e.target)

pub map-snoc {ℓ κ} :
    {A : Type ℓ} {B : Type κ} (f : A → B) (xs : List A) (x : A)
    → map f (xs ++ x ∷ []) ≡ map f xs ++ f x ∷ []
map-snoc f [] x = refl
map-snoc f (y ∷ ys) x = ap (◌∷◌ (f y)) (map-snoc f ys x)

-- The keys are those of the edges, and distinct.
pub record IsEdgeSet (s : EdgeSet) : Type 0 where
  pub distinct : Distinct (keys_of s.edges)
  pub known : (k : String) → elem k s.keys ≡ elem k (keys_of s.edges)

add_edge-IsEdgeSet : (s : EdgeSet) (e : TopologyEdge) → IsEdgeSet s → IsEdgeSet (add_edge s e)
unfolding add_edge elem
add_edge-IsEdgeSet s e v =
    let key = edge_key e.source e.target in
    elim (Bool-cases (elem key s.keys)) [
      | inl h ↦ rw (h, add_edge) v
      | inr h ↦
          rw (h, add_edge)
            (record {
              distinct =
                  rw (map-snoc (λ x. edge_key x.source x.target) s.edges e)
                    (Distinct-snoc key (keys_of s.edges) (sym (v.known key) ∙ h) v.distinct);
              known = λ k.
                  rw (map-snoc (λ x. edge_key x.source x.target) s.edges e)
                    (ground (arith, v.known k, elem-snoc k key (keys_of s.edges)));
            })
    ]

either : (b : Bool) (s t : EdgeSet) → IsEdgeSet s → IsEdgeSet t → IsEdgeSet (if b then s else t)
either true s t v w = v
either false s t v w = w

pub external_edges-IsEdgeSet :
    (deps : Dict (List String)) (edges : List DependencyEdge) (s : EdgeSet)
    → IsEdgeSet s
    → IsEdgeSet (external_edges deps s edges)
unfolding external_edges
external_edges-IsEdgeSet deps [] s v = v
external_edges-IsEdgeSet deps (e ∷ edges) s v =
    external_edges-IsEdgeSet deps edges _
      (either (is_overridden deps e) s _ v (add_edge-IsEdgeSet s _ v))

edges_of-IsEdgeSet :
    (parent : String) (deps : List String) (s : EdgeSet)
    → IsEdgeSet s
    → IsEdgeSet (edges_of parent s deps)
unfolding edges_of
edges_of-IsEdgeSet parent [] s v = v
edges_of-IsEdgeSet parent (d ∷ deps) s v =
    edges_of-IsEdgeSet parent deps _ (add_edge-IsEdgeSet s _ v)

pub override_edges-IsEdgeSet :
    (deps : Dict (List String)) (s : EdgeSet) → IsEdgeSet s → IsEdgeSet (override_edges s deps)
unfolding override_edges
override_edges-IsEdgeSet [] s v = v
override_edges-IsEdgeSet ((parent, names) ∷ deps) s v =
    override_edges-IsEdgeSet deps (edges_of parent s names) (edges_of-IsEdgeSet parent names s v)
