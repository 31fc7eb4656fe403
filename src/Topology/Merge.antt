-- ===== src/Topology/Merge.antt =====
-- The merger of internal/ai/cmdb/topology.go: the services of the repository and the calls of an external
-- source. The maps that only remember names are lists of names.
use Prim.Native.String.{◌++◌ as join}
use ops_captain.Base.{
  ℕ, String, Bool, false, not, Option, none, some, List, [], ◌∷◌, ◌++◌, ltb, str_eq, if◌then◌else◌,
  length,
}
use ops_captain.Base.Dict.{Dict, lookup, insert}
use ops_captain.Base.Sort.{elem}

pub record ServiceInfo : Type 0 where
  pub name : String
  pub display_name : String
  pub owner : String
  pub team : String
  pub cluster : String
  pub env : String
  pub region : String
  pub language : String
  pub port : ℕ
  pub dependencies : List String
  pub dependents : List String
  pub description : String
  pub on_call : String
  pub last_deploy : String
  pub tags : List String

pub record DependencyEdge : Type 0 where
  pub parent : String
  pub child : String
  pub call_count : ℕ

pub data DataSource : Type 0 where
  jaeger cmdb : DataSource

pub data EdgeKind : Type 0 where
  calls depends_on : EdgeKind

-- The type of a node is always "service".
pub record TopologyNode : Type 0 where
  pub id : String
  pub label : String
  pub cluster : String
  pub owner : String
  pub source : DataSource

pub record TopologyEdge : Type 0 where
  pub source : String
  pub target : String
  pub kind : EdgeKind
  pub call_count : ℕ
  pub data_source : DataSource

pub record TopologyResult : Type 0 where
  pub nodes : List TopologyNode
  pub edges : List TopologyEdge
  pub updated_at : ℕ

pub record ServiceRepository : Type 0 where
  pub get_service : String → Option ServiceInfo
  pub list_services_by_cluster : String → List ServiceInfo
  pub list_all : List ServiceInfo

unfoldable pub edge_key : String → String → String
edge_key parent child = join parent (join "->" child)

-- The edges so far and their keys.
pub record EdgeSet : Type 0 where
  pub keys : List String
  pub edges : List TopologyEdge

unfoldable pub add_edge : EdgeSet → TopologyEdge → EdgeSet
unfolding edge_key
add_edge s edge =
    let key = edge_key edge.source edge.target in
    if elem key s.keys then s else record { keys = key ∷ s.keys; edges = s.edges ++ edge ∷ [] }

unfoldable pub override_deps : Dict (List String) → List ServiceInfo → Dict (List String)
override_deps deps [] = deps
override_deps deps (s ∷ services) =
    override_deps
      (if ltb 0 (length s.dependencies) then insert s.name s.dependencies deps else deps) services

unfoldable pub by_name : Dict ServiceInfo → List ServiceInfo → Dict ServiceInfo
by_name known [] = known
by_name known (s ∷ services) = by_name (insert s.name s known) services

unfoldable pub is_overridden : Dict (List String) → DependencyEdge → Bool
is_overridden deps edge = elim (lookup edge.parent deps) [
  | none ↦ false
  | some names ↦ elem edge.child names
]

unfoldable pub external_edges : Dict (List String) → EdgeSet → List DependencyEdge → EdgeSet
unfolding add_edge is_overridden
external_edges deps s [] = s
external_edges deps s (edge ∷ edges) =
    external_edges deps
      (if is_overridden deps edge
        then s
        else add_edge s (record {
          source = edge.parent;
          target = edge.child;
          kind = calls;
          call_count = edge.call_count;
          data_source = jaeger;
        }))
      edges

unfoldable pub edges_of : String → EdgeSet → List String → EdgeSet
unfolding add_edge
edges_of parent s [] = s
edges_of parent s (dep ∷ deps) =
    edges_of parent
      (add_edge s (record {
        source = parent;
        target = dep;
        kind = depends_on;
        call_count = 0;
        data_source = cmdb;
      }))
      deps

unfoldable pub override_edges : EdgeSet → Dict (List String) → EdgeSet
unfolding edges_of
override_edges s [] = s
override_edges s ((parent, deps) ∷ rest) = override_edges (edges_of parent s deps) rest

-- The nodes so far and their names.
pub record NodeSet : Type 0 where
  pub names : List String
  pub nodes : List TopologyNode

module _ (known : Dict ServiceInfo) where
  unfoldable pub add_node : NodeSet → String → DataSource → NodeSet
  add_node s id source =
      let node : TopologyNode = elim (lookup id known) [
        | some service ↦ record {
          id = service.name;
          label = service.display_name;
          cluster = service.cluster;
          owner = service.owner;
          source = source;
        }
        | none ↦ record { id = id; label = id; cluster = ""; owner = ""; source = jaeger }
      ] in
      if elem id s.names
      then s
      else record { names = s.names ++ id ∷ []; nodes = s.nodes ++ node ∷ [] }

  unfoldable pub ends_of : NodeSet → List TopologyEdge → NodeSet
  unfolding add_node
  ends_of s [] = s
  ends_of s (edge ∷ edges) =
      ends_of (add_node (add_node s edge.source edge.data_source) edge.target edge.data_source)
        edges

  unfoldable pub add_names : NodeSet → List String → NodeSet
  unfolding add_node
  add_names s [] = s
  add_names s (name ∷ names) = add_names (add_node s name cmdb) names

  unfoldable pub add_services : NodeSet → List ServiceInfo → NodeSet
  unfolding add_names
  add_services s [] = s
  add_services s (service ∷ services) =
      add_services (add_names (add_node s service.name cmdb) service.dependencies) services

-- The body of `merge` after the services are chosen.
unfoldable pub merge_services :
    List ServiceInfo → Dict ServiceInfo → Option (List DependencyEdge) → ℕ → TopologyResult
unfolding external_edges override_edges override_deps ends_of add_services
merge_services services known external now =
    let deps = override_deps [] services in
    let fetched : List DependencyEdge = elim external [ none ↦ [] | some edges ↦ edges ] in
    let edges =
      override_edges (external_edges deps (record { keys = []; edges = [] }) fetched) deps in
    let nodes =
      add_services known (ends_of known (record { names = []; nodes = [] }) edges.edges) services in
    record { nodes = nodes.nodes; edges = edges.edges; updated_at = now }

-- `merge`. The external edges are none without a data source or if it fails.
unfoldable pub merge :
    ServiceRepository
    → (cluster service : String) → Option (List DependencyEdge)
    → ℕ
    → TopologyResult
unfolding merge_services by_name
merge repo cluster service external now =
    let all = by_name (by_name [] repo.list_all) repo.list_all in
    if not (str_eq service "")
    then elim (repo.get_service service) [
      | none ↦ record { nodes = []; edges = []; updated_at = 0 }
      | some s ↦ merge_services (s ∷ []) (by_name [] (s ∷ [])) external now
    ]
    else if not (str_eq cluster "")
    then merge_services (repo.list_services_by_cluster cluster)
        (by_name [] (repo.list_services_by_cluster cluster)) external now
    else merge_services repo.list_all all external now
