-- ===== src/Correlation/Causes.antt =====
-- The propagation chains and the root causes of internal/ai/alertcorrelation/engine.go.
use Prim.Native.String.{◌++◌ as join}
use ops_captain.Base.{
  ℕ, ◌+◌, ◌-◌, ◌*◌, ◌≤◌, ◌<◌, ◌≡◌, ◌⊎◌, refl, inl, inr, String, true, not, ◌&&◌, some, List, [],
  ◌∷◌, ◌++◌, arith, ltb, leb, length, All, All-snoc, Bool-cases, Option-cases,
}
use ops_captain.Base.Dict.{Dict, lookup}
use ops_captain.Base.Sort.{elem}
use ops_captain.Correlation.Engine.{
  SimplifiedAlert, minute, upstream_to_downstream, downstream_to_upstream_unusual, PropagationChain,
  TopologyProvider, Engine, Outside, earliest_alerts,
}
use ops_captain.Correlation.Chains.{
  Detection, calculate_propagation_confidence, check_forward, check_reverse, each_neighbour,
  each_service, detect_propagation,
}

-- The confidence, in hundredths, falls with the delay, in nanoseconds, at 1, 5, 15 and 30 minutes.
pub data IsConfidence (delay : ℕ) (confidence : ℕ) : Type 0 where
  at_once : delay < 60000000000 → confidence ≡ 95 → IsConfidence delay confidence
  soon :
      60000000000 ≤ delay → delay < 300000000000 → confidence ≡ 85 → IsConfidence delay confidence
  later :
      300000000000 ≤ delay → delay < 900000000000 → confidence ≡ 75 → IsConfidence delay confidence
  late :
      900000000000 ≤ delay → delay < 1800000000000 → confidence ≡ 65 → IsConfidence delay confidence
  too_late : 1800000000000 ≤ delay → confidence ≡ 50 → IsConfidence delay confidence

calculate_propagation_confidence-IsConfidence :
    (delay : ℕ) → IsConfidence delay (calculate_propagation_confidence delay)
unfolding calculate_propagation_confidence
calculate_propagation_confidence-IsConfidence delay = elim (Bool-cases (ltb delay minute)) [
  | inl a ↦ at_once (ground arith) (ground arith)
  | inr a ↦ elim (Bool-cases (ltb delay (5 * minute))) [
    | inl b ↦ soon (ground arith) (ground arith) (ground arith)
    | inr b ↦ elim (Bool-cases (ltb delay (15 * minute))) [
      | inl c ↦ later (ground arith) (ground arith) (ground arith)
      | inr c ↦ elim (Bool-cases (ltb delay (30 * minute))) [
        | inl d ↦ late (ground arith) (ground arith) (ground arith)
        | inr d ↦ too_late (ground arith) (ground arith)
      ]
    ]
  ]
]

-- A service is among the neighbours.
abbrev pub IsIn : String → List String → Type 0
IsIn service [] = ⊥
IsIn service (s ∷ services) = (s ≡ service) ⊎ IsIn service services

module _ {F : Type 0} (o : Outside F) (e : Engine F) (topology : TopologyProvider)
    (first_alerts : Dict SimplifiedAlert) where
  -- Both services have a first alert. A chain downstream names a dependent service whose first alert is
  -- not earlier, with the confidence of the delay, which reaches the threshold; a chain upstream names a
  -- service depended on whose first alert is later.
  abbrev pub IsChain : PropagationChain → Type 0
  IsChain c =
      (x y : SimplifiedAlert) × (lookup c.first first_alerts ≡ some x)
      × (lookup c.second first_alerts ≡ some y)
      × (x.active_at + c.delay ≡ y.active_at)
      × (elim c.direction [
        | upstream_to_downstream ↦
            IsIn c.second (topology.get_downstream c.first)
            × IsConfidence c.delay c.confidence
            × (o.reaches c.confidence e.propagation_threshold ≡ true)
        | downstream_to_upstream_unusual ↦
            IsIn c.second (topology.get_upstream c.first) × (0 < c.delay) × (c.confidence ≡ 50)
      ])

  -- A check adds no chain, or one chain of this kind.
  abbrev AddsChain : Detection → Detection → Type 0
  AddsChain f g =
      (g.chains ≡ f.chains) ⊎ ((c : PropagationChain) × (g.chains ≡ f.chains ++ c ∷ []) × IsChain c)

  check_forward-AddsChain :
      (first second : String) (f : Detection)
      → IsIn second (topology.get_downstream first)
      → AddsChain f (check_forward o e first_alerts first f second)
  unfolding check_forward
  check_forward-AddsChain first second f near = elim (Option-cases (lookup first first_alerts)) [
    | inl a ↦ inl (ground arith)
    | inr (x, a) ↦ elim (Option-cases (lookup second first_alerts)) [
      | inl b ↦ inl (ground (arith, a))
      | inr (y, b) ↦
          let key = join first (join "->" second) in
          let delay = y.active_at - x.active_at in
          let confidence = calculate_propagation_confidence delay in
          elim (Bool-cases (leb x.active_at y.active_at && not (elem key f.seen))) [
            | inr c ↦ inl (ground (arith, a, b, c))
            | inl c ↦ elim (Bool-cases (o.reaches confidence e.propagation_threshold)) [
              | inr d ↦ inl (ground (arith, a, b, c, d))
              | inl d ↦ inr (
                record {
                  first = first;
                  second = second;
                  direction = upstream_to_downstream;
                  confidence = confidence;
                  delay = delay;
                },
                ground (arith, a, b, c, d),
                (
                  x,
                  y,
                  a,
                  b,
                  ground (arith, c),
                  (near, calculate_propagation_confidence-IsConfidence delay, d),
                ),
              )
            ]
          ]
    ]
  ]

  check_reverse-AddsChain :
      (first second : String) (f : Detection)
      → IsIn second (topology.get_upstream first)
      → AddsChain f (check_reverse o e first_alerts first f second)
  unfolding check_reverse
  check_reverse-AddsChain first second f near = elim (Option-cases (lookup first first_alerts)) [
    | inl a ↦ inl (ground arith)
    | inr (x, a) ↦ elim (Option-cases (lookup second first_alerts)) [
      | inl b ↦ inl (ground (arith, a))
      | inr (y, b) ↦
          let key = join first (join "->" (join second "_reverse")) in
          elim (Bool-cases (ltb x.active_at y.active_at && not (elem key f.seen))) [
            | inr c ↦ inl (ground (arith, a, b, c))
            | inl c ↦ inr (
              record {
                first = first;
                second = second;
                direction = downstream_to_upstream_unusual;
                confidence = 50;
                delay = y.active_at - x.active_at;
              },
              ground (arith, a, b, c),
              (x, y, a, b, ground (arith, c), (near, ground (arith, c), refl)),
            )
          ]
    ]
  ]

  each_neighbour-IsChain :
      (check : Detection → String → Detection) (f : Detection) (neighbours : List String)
      → ((f : Detection) (n : String) → IsIn n neighbours → AddsChain f (check f n))
      → All IsChain f.chains
      → All IsChain (each_neighbour check f neighbours).chains
  unfolding each_neighbour
  each_neighbour-IsChain check f [] adds h = h
  each_neighbour-IsChain check f (n ∷ ns) adds h =
      each_neighbour-IsChain check (check f n) ns (λ g m near. adds g m (inr near))
        (elim (adds f n (inl refl)) [
          | inl same ↦ rw same h
          | inr (c, added, sound) ↦ rw added (All-snoc IsChain f.chains c h sound)
        ])

  each_service-IsChain :
      (check : String → Detection → String → Detection) (neighbours : String → List String)
      (f : Detection) (services : List String)
      → ((s : String) (f : Detection) (n : String)
          → IsIn n (neighbours s)
          → AddsChain f (check s f n))
      → All IsChain f.chains
      → All IsChain (each_service check neighbours f services).chains
  unfolding each_service
  each_service-IsChain check neighbours f [] adds h = h
  each_service-IsChain check neighbours f (s ∷ services) adds h =
      each_service-IsChain check neighbours (each_neighbour (check s) f (neighbours s)) services
        adds (each_neighbour-IsChain (check s) f (neighbours s) (adds s) h)

module _ {F : Type 0} (o : Outside F) (e : Engine F) where
  -- With a topology, every chain that is detected is between two services that have a first alert: a
  -- chain downstream goes to a dependent service whose first alert is not earlier, with a confidence
  -- that reaches the threshold: 0.95 below 1 minute of delay, 0.85 below 5, 0.75 below 15, 0.65 below
  -- 30, else 0.5; a chain upstream goes to a service depended on whose first alert is later, with
  -- confidence 0.5, whatever the threshold.
  pub detect_propagation-IsChain :
      (topology : TopologyProvider) (alerts : List SimplifiedAlert) (services : List String)
      → e.topology ≡ some topology
      → All
          (IsChain o e topology (earliest_alerts o e [] alerts))
          (detect_propagation o e alerts services)
  unfolding detect_propagation
  detect_propagation-IsChain topology alerts services h =
      let first_alerts = earliest_alerts o e [] alerts in
      let forward : Detection =
        each_service (check_forward o e first_alerts) topology.get_downstream
          (record { seen = []; chains = [] }) services in
      let chains =
        each_service-IsChain o e topology first_alerts (check_reverse o e first_alerts)
          topology.get_upstream forward services
          (λ s f n. check_reverse-AddsChain o e topology first_alerts s n f)
          (each_service-IsChain o e topology first_alerts (check_forward o e first_alerts)
            topology.get_downstream (record { seen = []; chains = [] }) services
            (λ s f n. check_forward-AddsChain o e topology first_alerts s n f) tt) in
      elim (Bool-cases (ltb (length services) 2)) [
        | inl few ↦
            let none_found : detect_propagation o e alerts services ≡ [] = ground (arith, h) in
            rw none_found tt
        | inr many ↦
            let found : detect_propagation o e alerts services
                ≡ (each_service (check_reverse o e first_alerts) topology.get_upstream forward
                    services).chains =
              ground (arith, h) in
            rw found chains
      ]
