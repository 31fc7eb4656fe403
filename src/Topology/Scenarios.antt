-- ===== src/Topology/Scenarios.antt =====
-- Runs of internal/ai/cmdb/topology.go on two services and one call that is not in the repository.
use ops_captain.Base.{
  ◌≡◌, refl, Option, none, some, List, [], ◌∷◌, str_eq, if◌then◌else◌, All, length, keep,
}
use ops_captain.Base.Dict.{insert, lookup}
use ops_captain.Base.Sort.{elem}
use ops_captain.Topology.Merge.{
  ServiceInfo, DependencyEdge, TopologyResult, ServiceRepository, merge,
}
use ops_captain.Topology.Serve.{filter, get_topology, refresh}
use ops_captain.Topology.Closed.{IsGraph, merge-IsGraph}
use ops_captain.Topology.Served.{refreshes, gets, forces, served, served-IsGraph}

abbrev web : ServiceInfo
web = record {
  name = "web";
  display_name = "Web";
  owner = "ann";
  team = "shop";
  cluster = "a";
  env = "prod";
  region = "";
  language = "go";
  port = 8080;
  dependencies = "db" ∷ "cache" ∷ [];
  dependents = [];
  description = "";
  on_call = "";
  last_deploy = "";
  tags = [];
}

abbrev db : ServiceInfo
db = record {
  name = "db";
  display_name = "Database";
  owner = "bob";
  team = "data";
  cluster = "b";
  env = "prod";
  region = "";
  language = "go";
  port = 8080;
  dependencies = [];
  dependents = [];
  description = "";
  on_call = "";
  last_deploy = "";
  tags = [];
}

abbrev repo : ServiceRepository
repo = record {
  get_service =
      λ name. if str_eq name "web" then some web else if str_eq name "db" then some db else none;
  list_services_by_cluster = λ cluster. if str_eq cluster "a" then web ∷ [] else db ∷ [];
  list_all = web ∷ db ∷ [];
}

abbrev traced : Option (List DependencyEdge)
traced = some (
    record { parent = "web"; child = "db"; call_count = 9 }
    ∷ record { parent = "mail"; child = "smtp"; call_count = 2 }
    ∷ [])

abbrev whole : TopologyResult
whole = merge repo "" "" traced 1

whole-IsGraph : IsGraph whole
whole-IsGraph = merge-IsGraph repo "" "" traced 1

served-IsGraph_example : All IsGraph (
    served repo none (
      gets "" "web" traced 1
      ∷ refreshes none 2
      ∷ gets "a" "" none 3
      ∷ forces "" "db" traced 4
      ∷ []))
served-IsGraph_example =
    served-IsGraph repo (
      gets "" "web" traced 1 ∷ refreshes none 2 ∷ gets "a" "" none 3 ∷ forces "" "db" traced 4 ∷ [])

-- Without a cache the request for one service also gets the calls between others.
uncached : length (get_topology repo none "" "web" traced 1).nodes ≡ 5
unfolding get_topology merge elem insert lookup
uncached = refl

cached : length (get_topology repo (refresh repo none traced 1) "" "web" traced 1).nodes ≡ 3
unfolding get_topology merge refresh filter keep elem insert lookup
cached = refl
