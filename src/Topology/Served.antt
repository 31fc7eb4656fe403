-- ===== src/Topology/Served.antt =====
-- What internal/ai/cmdb/topology.go serves from its cache.
use ops_captain.Base.{
  ℕ, ◌≡◌, refl, ◌∙◌, inl, inr, String, Bool, false, ◌&&◌, ◌||◌, Option, none, some, List, [], ◌∷◌,
  arith, str_eq, keep, map, All, Bool-cases, eq_iff,
}
use ops_captain.Base.Sort.{elem, Distinct}
use ops_captain.Topology.Merge.{
  DependencyEdge, TopologyNode, TopologyEdge, TopologyResult, ServiceRepository, edge_key, merge,
}
use ops_captain.Topology.Serve.{
  restrict, targets_of, names_in, filter, TopologyCache, refresh, get_topology,
  get_topology_with_force,
}
use ops_captain.Topology.Nodes.{ids, HasEnds}
use ops_captain.Topology.Closed.{IsGraph, merge-IsGraph}

module _ {ℓ} {A : Type ℓ} (f : A → String) (p : A → Bool) where
  keep-absent :
      (k : String) (xs : List A) → elem k (map f xs) ≡ false → elem k (map f (keep p xs)) ≡ false
  unfolding keep elem
  keep-absent k [] h = refl
  keep-absent k (x ∷ xs) h = ground (arith, keep-absent k xs)

  keep-Distinct : (xs : List A) → Distinct (map f xs) → Distinct (map f (keep p xs))
  unfolding keep
  keep-Distinct [] d = tt
  keep-Distinct (x ∷ xs) d = elim (Bool-cases (p x)) [
    | inl e ↦ rw (e, keep) (keep-absent (f x) xs d.0, keep-Distinct xs d.1)
    | inr e ↦ rw (e, keep) (keep-Distinct xs d.1)
  ]

-- A name is among the nodes kept exactly if it is among the names and among the nodes.
keep-ids :
    (names : List String) (k : String) (nodes : List TopologyNode)
    → elem k (ids (keep (λ n. elem n.id names) nodes)) ≡ (elem k names && elem k (ids nodes))
unfolding keep elem
keep-ids names k [] = ground arith
keep-ids names k (n ∷ nodes) = ground (arith, keep-ids names k nodes, eq_iff n.id k)

keep-HasEnds :
    (names : List String) (nodes : List TopologyNode) (edges : List TopologyEdge)
    → All (HasEnds (ids nodes)) edges
    → All
        (HasEnds (ids (keep (λ n. elem n.id names) nodes)))
        (keep (λ e. elem e.source names && elem e.target names) edges)
unfolding keep
keep-HasEnds names nodes [] h = tt
keep-HasEnds names nodes (e ∷ edges) h =
    elim (Bool-cases (elem e.source names && elem e.target names)) [
      | inr g ↦ rw (g, keep) (keep-HasEnds names nodes edges h.1)
      | inl g ↦
          rw (g, keep)
            (
              (
                ground (arith, g, h.0.0, keep-ids names e.source nodes),
                ground (arith, g, h.0.1, keep-ids names e.target nodes),
              ),
              keep-HasEnds names nodes edges h.1,
            )
    ]

restrict-IsGraph :
    (names : List String) (r : TopologyResult) → IsGraph r → IsGraph (restrict names r)
unfolding restrict
restrict-IsGraph names r g = record {
  distinct_nodes = keep-Distinct (λ n. n.id) (λ n. elem n.id names) r.nodes g.distinct_nodes;
  distinct_edges =
      keep-Distinct (λ e. edge_key e.source e.target)
        (λ e. elem e.source names && elem e.target names) r.edges g.distinct_edges;
  closed = keep-HasEnds names r.nodes r.edges g.closed;
}

filter-IsGraph :
    (r : TopologyResult) (cluster service : String) → IsGraph r → IsGraph (filter r cluster service)
unfolding filter
filter-IsGraph r cluster service g = elim (Bool-cases (str_eq service "")) [
  | inr h ↦ rw (h, filter) (restrict-IsGraph (service ∷ targets_of service r.edges) r g)
  | inl h ↦ elim (Bool-cases (str_eq cluster "")) [
    | inr e ↦ rw (h, e, filter) (restrict-IsGraph (names_in cluster r.nodes) r g)
    | inl e ↦ rw (h, e, filter) g
  ]
]

-- Filtered by a service, a graph keeps exactly the node of the service and those of the targets of
-- its edges, whatever the cluster, and remains a graph.
pub filter-service :
    (r : TopologyResult) (cluster service name : String)
    → IsGraph r
    → str_eq service "" ≡ false
    → IsGraph (filter r cluster service)
      × (elem name (ids (filter r cluster service).nodes) ≡ (
          (str_eq service name || elem name (targets_of service r.edges))
          && elem name (ids r.nodes)))
unfolding filter restrict elem
filter-service r cluster service name g h = (
  filter-IsGraph r cluster service g,
  rw h (keep-ids (service ∷ targets_of service r.edges) name r.nodes ∙ ground arith),
)

-- The calls of the merger: with what the source of dependencies answers, and the time.
pub data MergerCall : Type 0 where
  refreshes : (external : Option (List DependencyEdge)) (now : ℕ) → MergerCall
  gets : (cluster service : String) (external : Option (List DependencyEdge)) (now : ℕ) → MergerCall
  forces :
      (cluster service : String) (external : Option (List DependencyEdge)) (now : ℕ) → MergerCall

module _ (repo : ServiceRepository) where
  -- What a run of calls answers, in order.
  unfoldable pub served : TopologyCache → List MergerCall → List TopologyResult
  unfolding refresh get_topology get_topology_with_force
  served cache [] = []
  served cache (refreshes external now ∷ calls) = served (refresh repo cache external now) calls
  served cache (gets cluster service external now ∷ calls) =
      get_topology repo cache cluster service external now ∷ served cache calls
  served cache (forces cluster service external now ∷ calls) =
      let (cached, result) = get_topology_with_force repo cache cluster service external now in
      result ∷ served cached calls

  abbrev IsCached : TopologyCache → Type 0
  IsCached none = Unit
  IsCached (some (result, merged_at)) = IsGraph result

  get_topology-IsGraph :
      (cache : TopologyCache) (cluster service : String) (external : Option (List DependencyEdge))
      (now : ℕ)
      → IsCached cache
      → IsGraph (get_topology repo cache cluster service external now)
  unfolding get_topology
  get_topology-IsGraph none cluster service external now c =
      merge-IsGraph repo cluster service external now
  get_topology-IsGraph (some (result, merged_at)) cluster service external now c =
      filter-IsGraph result cluster service c

  served-IsCached :
      (calls : List MergerCall) (cache : TopologyCache)
      → IsCached cache
      → All IsGraph (served cache calls)
  unfolding served refresh get_topology_with_force
  served-IsCached [] cache c = tt
  served-IsCached (refreshes external now ∷ calls) cache c =
      served-IsCached calls (refresh repo cache external now)
        (merge-IsGraph repo "" "" external now)
  served-IsCached (gets cluster service external now ∷ calls) cache c =
      (get_topology-IsGraph cache cluster service external now c, served-IsCached calls cache c)
  served-IsCached (forces cluster service external now ∷ calls) cache c =
      let whole = merge-IsGraph repo "" "" external now in
      (
        filter-IsGraph (merge repo "" "" external now) cluster service whole,
        served-IsCached calls (get_topology_with_force repo cache cluster service external now).0
            whole,
      )

  -- From an empty cache, through any refreshes and requests with any filters, every result that is
  -- served is a graph.
  pub served-IsGraph : (calls : List MergerCall) → All IsGraph (served none calls)
  served-IsGraph calls = served-IsCached calls none tt
