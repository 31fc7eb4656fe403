-- ===== src/Topology/Closed.antt =====
-- What internal/ai/cmdb/topology.go merges is a graph: distinct nodes, distinct edges between them.
use ops_captain.Base.{
  ℕ, refl, subst, inl, inr, String, Option, none, some, List, [], ◌∷◌, str_eq, All, All-map,
  Bool-cases, Option-cases,
}
use ops_captain.Base.Dict.{Dict}
use ops_captain.Base.Sort.{elem, Distinct}
use ops_captain.Topology.Merge.{
  ServiceInfo, DependencyEdge, TopologyResult, ServiceRepository, override_deps, by_name,
  external_edges, override_edges, ends_of, add_services, merge_services, merge,
}
use ops_captain.Topology.Edges.{keys_of, external_edges-IsEdgeSet, override_edges-IsEdgeSet}
use ops_captain.Topology.Nodes.{
  ids, HasEnds, IsByName, by_name-IsByName, ends_of-IsNodeSet, ends_of-HasEnds,
  add_services-IsNodeSet, add_services-elem,
}

-- No two nodes share an identifier, no two edges their two ends, and the ends of every edge are nodes.
pub record IsGraph (r : TopologyResult) : Type 0 where
  pub distinct_nodes : Distinct (ids r.nodes)
  pub distinct_edges : Distinct (keys_of r.edges)
  pub closed : All (HasEnds (ids r.nodes)) r.edges

merge_services-IsGraph :
    (services : List ServiceInfo) (known : Dict ServiceInfo)
    (external : Option (List DependencyEdge)) (now : ℕ)
    → IsByName known
    → IsGraph (merge_services services known external now)
unfolding merge_services elem
merge_services-IsGraph services known external now v =
    let deps = override_deps [] services in
    let fetched : List DependencyEdge = elim external [ none ↦ [] | some edges ↦ edges ] in
    let edges =
      override_edges (external_edges deps (record { keys = []; edges = [] }) fetched) deps in
    let ends = ends_of known (record { names = []; nodes = [] }) edges.edges in
    let all = add_services known ends services in
    let distinct = override_edges-IsEdgeSet deps _ (
      external_edges-IsEdgeSet deps fetched (record { keys = []; edges = [] })
        (record { distinct = tt; known = λ k. refl })) in
    let complete = add_services-IsNodeSet known v services ends (
      ends_of-IsNodeSet known v edges.edges (record { names = []; nodes = [] })
        (record { named = refl; distinct = tt })) in
    record {
      distinct_nodes = subst Distinct complete.named complete.distinct;
      distinct_edges = distinct.distinct;
      closed =
          subst (λ names. All (HasEnds names) edges.edges) complete.named
            (All-map (HasEnds ends.names) (HasEnds all.names) edges.edges
              (λ e h. (
                add_services-elem known v services ends e.source h.0,
                add_services-elem known v services ends e.target h.1,
              ))
              (ends_of-HasEnds known v edges.edges (record { names = []; nodes = [] })));
    }

-- Whatever the filters are, and whether or not the source of dependencies answers, a merge gives a
-- graph: no two nodes share an identifier, no two edges both ends, and the ends of an edge are nodes.
pub merge-IsGraph :
    (repo : ServiceRepository) (cluster service : String) (external : Option (List DependencyEdge))
    (now : ℕ)
    → IsGraph (merge repo cluster service external now)
unfolding merge
merge-IsGraph repo cluster service external now = elim (Bool-cases (str_eq service "")) [
  | inr h ↦ elim (Option-cases (repo.get_service service)) [
    | inl e ↦ rw (h, e, merge) (record { distinct_nodes = tt; distinct_edges = tt; closed = tt })
    | inr (s, e) ↦
        rw (h, e, merge)
          (merge_services-IsGraph (s ∷ []) (by_name [] (s ∷ [])) external now
            (by_name-IsByName (s ∷ []) [] tt))
  ]
  | inl h ↦ elim (Bool-cases (str_eq cluster "")) [
    | inr e ↦
        let services = repo.list_services_by_cluster cluster in
        rw (h, e, merge)
          (merge_services-IsGraph services (by_name [] services) external now
            (by_name-IsByName services [] tt))
    | inl e ↦
        rw (h, e, merge)
          (merge_services-IsGraph repo.list_all _ external now
            (by_name-IsByName repo.list_all _ (by_name-IsByName repo.list_all [] tt)))
  ]
]
