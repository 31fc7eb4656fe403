-- ===== src/Topology/Serve.antt =====
-- The cache of internal/ai/cmdb/topology.go and the filters. Each access to the cache holds the mutex; what
-- the source of dependencies answers, and the time, are arguments of a call.
use ops_captain.Base.{
  ℕ, String, not, ◌&&◌, ◌||◌, Option, none, some, List, ◌∷◌, str_eq, if◌then◌else◌, keep, length,
  map,
}
use ops_captain.Base.Sort.{elem}
use ops_captain.Topology.Merge.{
  DependencyEdge, TopologyNode, TopologyEdge, TopologyResult, ServiceRepository, merge,
}

-- What `filter` keeps: the nodes of the names, and the edges between them.
unfoldable pub restrict : List String → TopologyResult → TopologyResult
restrict names r = record r {
  nodes = keep (λ n. elem n.id names) r.nodes;
  edges = keep (λ e. elem e.source names && elem e.target names) r.edges;
}

-- The targets of the edges out of a service.
unfoldable pub targets_of : String → List TopologyEdge → List String
targets_of service edges = map (λ e. e.target) (keep (λ e. str_eq e.source service) edges)

-- The nodes of the cluster, and those without one.
unfoldable pub names_in : String → List TopologyNode → List String
names_in cluster nodes =
    map (λ n. n.id) (keep (λ n. str_eq n.cluster cluster || str_eq n.cluster "") nodes)

unfoldable pub filter : TopologyResult → (cluster service : String) → TopologyResult
unfolding restrict targets_of names_in
filter r cluster service =
    if not (str_eq service "")
    then restrict (service ∷ targets_of service r.edges) r
    else if not (str_eq cluster "")
    then restrict (names_in cluster r.nodes) r
    else r

-- The cached result and the time that it was merged.
abbrev pub TopologyCache : Type 0
TopologyCache = Option (TopologyResult × ℕ)

module _ (repo : ServiceRepository) where
  unfoldable pub refresh : TopologyCache → Option (List DependencyEdge) → ℕ → TopologyCache
  unfolding merge
  refresh cache external now = some (merge repo "" "" external now, now)

  unfoldable pub get_topology :
      TopologyCache → (cluster service : String) → Option (List DependencyEdge) → ℕ → TopologyResult
  unfolding merge filter
  get_topology cache cluster service external now = elim cache [
    | none ↦ merge repo cluster service external now
    | some (result, merged_at) ↦ filter result cluster service
  ]

  unfoldable pub get_topology_with_force :
      TopologyCache
      → (cluster service : String) → Option (List DependencyEdge)
      → ℕ
      → TopologyCache × TopologyResult
  unfolding merge filter
  get_topology_with_force cache cluster service external now =
      let result = merge repo "" "" external now in
      (some (result, now), filter result cluster service)

-- The time and the sizes, or none without a cache.
unfoldable pub cache_info : TopologyCache → Option (ℕ × ℕ × ℕ)
cache_info none = none
cache_info (some (result, merged_at)) = some (merged_at, length result.nodes, length result.edges)
