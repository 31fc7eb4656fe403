-- ===== src/Topology/Nodes.antt =====
-- The nodes that internal/ai/cmdb/topology.go merges are distinct, and every name that is added has one.
use ops_captain.Base.{
  ◌≡◌, refl, sym, ap, ◌∙◌, inl, inr, String, true, List, [], ◌∷◌, ◌++◌, arith, str_eq,
  if◌then◌else◌, map, All, Bool-cases, Option-cases, eq_iff,
}
use ops_captain.Base.Dict.{Dict, lookup, insert, AllEntries, AllEntries-insert, AllEntries-lookup}
use ops_captain.Base.Sort.{elem, Distinct, elem-snoc, Distinct-snoc}
use ops_captain.Topology.Merge.{
  ServiceInfo, DataSource, cmdb, TopologyNode, TopologyEdge, by_name, NodeSet, add_node, ends_of,
  add_names, add_services,
}
use ops_captain.Topology.Edges.{map-snoc}

abbrev pub ids : List TopologyNode → List String
ids = map (λ n. n.id)

-- The names are those of the nodes, in order, and distinct.
pub record IsNodeSet (s : NodeSet) : Type 0 where
  pub named : s.names ≡ ids s.nodes
  pub distinct : Distinct s.names

-- Both ends of the edge are among the names.
abbrev pub HasEnds : List String → TopologyEdge → Type 0
HasEnds names e = (elem e.source names ≡ true) × (elem e.target names ≡ true)

abbrev pub IsByName : Dict ServiceInfo → Type 0
IsByName = AllEntries (λ name service. service.name ≡ name)

pub by_name-IsByName :
    (services : List ServiceInfo) (known : Dict ServiceInfo)
    → IsByName known
    → IsByName (by_name known services)
unfolding by_name
by_name-IsByName [] known v = v
by_name-IsByName (s ∷ services) known v =
    by_name-IsByName services (insert s.name s known)
      (AllEntries-insert (λ name service. service.name ≡ name) s.name s known refl v)

module _ (known : Dict ServiceInfo) (v : IsByName known) where
  add_node-IsNodeSet :
      (s : NodeSet) (id : String) (source : DataSource)
      → IsNodeSet s
      → IsNodeSet (add_node known s id source)
  unfolding add_node
  add_node-IsNodeSet s id source w = elim (Bool-cases (elem id s.names)) [
    | inl h ↦ rw (h, add_node) w
    | inr h ↦ elim (Option-cases (lookup id known)) [
      | inl e ↦
          rw (h, e, add_node)
            (record {
              named = ap (λ names. names ++ id ∷ []) w.named ∙ sym (map-snoc (λ n. n.id) s.nodes _);
              distinct = Distinct-snoc id s.names h w.distinct;
            })
      | inr (service, e) ↦
          rw (h, e, add_node)
            (record {
              named =
                  ap (λ names. names ++ id ∷ []) w.named
                  ∙ ap (λ name. ids s.nodes ++ name ∷ [])
                      (sym (
                        AllEntries-lookup (λ name service. service.name ≡ name) id service known v
                          e))
                  ∙ sym (map-snoc (λ n. n.id) s.nodes _);
              distinct = Distinct-snoc id s.names h w.distinct;
            })
    ]
  ]

  -- The name is there, and all others are as before.
  add_node-elem :
      (s : NodeSet) (id k : String) (source : DataSource)
      → elem k (add_node known s id source).names ≡ (if str_eq id k then true else elem k s.names)
  unfolding add_node
  add_node-elem s id k source = ground (arith, elem-snoc k id s.names, eq_iff id k)

  add_names-IsNodeSet :
      (names : List String) (s : NodeSet) → IsNodeSet s → IsNodeSet (add_names known s names)
  unfolding add_names
  add_names-IsNodeSet [] s w = w
  add_names-IsNodeSet (name ∷ names) s w =
      add_names-IsNodeSet names (add_node known s name cmdb) (add_node-IsNodeSet s name cmdb w)

  add_names-elem :
      (names : List String) (s : NodeSet) (k : String)
      → elem k s.names ≡ true
      → elem k (add_names known s names).names ≡ true
  unfolding add_names
  add_names-elem [] s k h = h
  add_names-elem (name ∷ names) s k h =
      add_names-elem names (add_node known s name cmdb) k
        (ground (arith, h, add_node-elem s name k cmdb))

  pub add_services-IsNodeSet :
      (services : List ServiceInfo) (s : NodeSet)
      → IsNodeSet s
      → IsNodeSet (add_services known s services)
  unfolding add_services
  add_services-IsNodeSet [] s w = w
  add_services-IsNodeSet (service ∷ services) s w =
      add_services-IsNodeSet services _
        (add_names-IsNodeSet service.dependencies _ (add_node-IsNodeSet s service.name cmdb w))

  pub add_services-elem :
      (services : List ServiceInfo) (s : NodeSet) (k : String)
      → elem k s.names ≡ true
      → elem k (add_services known s services).names ≡ true
  unfolding add_services
  add_services-elem [] s k h = h
  add_services-elem (service ∷ services) s k h = add_services-elem services _ k (
      add_names-elem service.dependencies (add_node known s service.name cmdb) k
        (ground (arith, h, add_node-elem s service.name k cmdb)))

  -- The nodes after the ends of one edge.
  abbrev after_edge : NodeSet → TopologyEdge → NodeSet
  after_edge s e = add_node known (add_node known s e.source e.data_source) e.target e.data_source

  pub ends_of-IsNodeSet :
      (edges : List TopologyEdge) (s : NodeSet) → IsNodeSet s → IsNodeSet (ends_of known s edges)
  unfolding ends_of
  ends_of-IsNodeSet [] s w = w
  ends_of-IsNodeSet (e ∷ edges) s w =
      ends_of-IsNodeSet edges (after_edge s e) (
        add_node-IsNodeSet _ e.target e.data_source (add_node-IsNodeSet s e.source e.data_source w))

  after_edge-elem :
      (s : NodeSet) (e : TopologyEdge) (k : String)
      → elem k (after_edge s e).names
        ≡ (if str_eq e.target k then true else if str_eq e.source k then true else elem k s.names)
  after_edge-elem s e k = ground (
    arith,
    add_node-elem s e.source k e.data_source,
    add_node-elem (add_node known s e.source e.data_source) e.target k e.data_source,
  )

  ends_of-elem :
      (edges : List TopologyEdge) (s : NodeSet) (k : String)
      → elem k s.names ≡ true
      → elem k (ends_of known s edges).names ≡ true
  unfolding ends_of
  ends_of-elem [] s k h = h
  ends_of-elem (e ∷ edges) s k h =
      ends_of-elem edges (after_edge s e) k (ground (arith, h, after_edge-elem s e k))

  pub ends_of-HasEnds :
      (edges : List TopologyEdge) (s : NodeSet) → All (HasEnds (ends_of known s edges).names) edges
  unfolding ends_of
  ends_of-HasEnds [] s = tt
  ends_of-HasEnds (e ∷ edges) s = (
    (
      ends_of-elem edges (after_edge s e) e.source
          (ground (arith, after_edge-elem s e e.source, eq_iff e.source e.source)),
      ends_of-elem edges (after_edge s e) e.target
          (ground (arith, after_edge-elem s e e.target, eq_iff e.target e.target)),
    ),
    ends_of-HasEnds edges (after_edge s e),
  )
