-- ===== src/Correlation/Chains.antt =====
-- The propagation chains and root causes of internal/ai/alertcorrelation/engine.go. The maps that only
-- remember names are lists of names.
use Prim.Native.String.{◌++◌ as join}
use ops_captain.Base.{
  ℕ, ◌+◌, ◌-◌, ◌*◌, String, Bool, true, false, not, ◌&&◌, Option, none, some, List, [], ◌∷◌, ◌++◌,
  ltb, leb, ◌==◌, if◌then◌else◌, length, take,
}
use ops_captain.Base.Dict.{Dict, lookup, has}
use ops_captain.Base.Sort.{sort, elem}
use ops_captain.Correlation.Engine.{
  SimplifiedAlert, AlertGroup, upstream_to_downstream, downstream_to_upstream_unusual,
  PropagationChain, Reason, earliest_alert, upstream_in_chain, no_upstream_alert,
  RootCauseCandidate, TopologyProvider, Engine, Outside, minute, extract_services,
  group_by_time_window, earliest_alerts,
}

unfoldable pub calculate_propagation_confidence : ℕ → ℕ
calculate_propagation_confidence delay =
    if ltb delay minute
    then 95
    else if ltb delay (5 * minute)
    then 85
    else if ltb delay (15 * minute)
    then 75
    else if ltb delay (30 * minute)
    then 65
    else 50

-- The keys that were seen and the chains so far.
pub record Detection : Type 0 where
  pub seen : List String
  pub chains : List PropagationChain

module _ {F : Type 0} (o : Outside F) (e : Engine F) (first_alerts : Dict SimplifiedAlert) where
  -- The times of the first alerts of two services that both have one.
  abbrev first_times : String → String → Option (ℕ × ℕ)
  first_times a b = elim (lookup a first_alerts) [
    | none ↦ none
    | some x ↦ elim (lookup b first_alerts) [
      | none ↦ none
      | some y ↦ some (x.active_at, y.active_at)
    ]
  ]

  unfoldable pub check_forward : String → Detection → String → Detection
  unfolding calculate_propagation_confidence
  check_forward upstream f downstream =
      let key = join upstream (join "->" downstream) in
      elim (first_times upstream downstream) [
        | none ↦ f
        | some (up, down) ↦
            if leb up down && not (elem key f.seen)
            then record {
              seen = key ∷ f.seen;
              chains =
                  if o.reaches (calculate_propagation_confidence (down - up))
                    e.propagation_threshold
                  then f.chains
                    ++ record {
                      first = upstream;
                      second = downstream;
                      direction = upstream_to_downstream;
                      confidence = calculate_propagation_confidence (down - up);
                      delay = down - up;
                    }
                      ∷ []
                  else f.chains;
            }
            else f
      ]

  unfoldable pub check_reverse : String → Detection → String → Detection
  check_reverse downstream f upstream =
      let key = join downstream (join "->" (join upstream "_reverse")) in
      elim (first_times downstream upstream) [
        | none ↦ f
        | some (down, up) ↦
            if ltb down up && not (elem key f.seen)
            then record {
              seen = key ∷ f.seen;
              chains =
                  f.chains
                  ++ record {
                    first = downstream;
                    second = upstream;
                    direction = downstream_to_upstream_unusual;
                    confidence = 50;
                    delay = up - down;
                  }
                    ∷ [];
            }
            else f
      ]

-- A loop of one of the checks over the neighbours of a service.
unfoldable pub each_neighbour :
    (Detection → String → Detection) → Detection → List String → Detection
each_neighbour check f [] = f
each_neighbour check f (n ∷ ns) = each_neighbour check (check f n) ns

-- The loop over the services around it.
unfoldable pub each_service :
    (String → Detection → String → Detection)
    → (String → List String)
    → Detection
    → List String
    → Detection
unfolding each_neighbour
each_service check neighbours f [] = f
each_service check neighbours f (s ∷ services) =
    each_service check neighbours (each_neighbour (check s) f (neighbours s)) services

module _ {F : Type 0} (o : Outside F) (e : Engine F) where
  unfoldable pub detect_propagation : List SimplifiedAlert → List String → List PropagationChain
  unfolding each_service check_forward check_reverse
  detect_propagation alerts services = elim e.topology [
    | none ↦ []
    | some topology ↦
        let first_alerts = earliest_alerts o e [] alerts in
        let forward =
          each_service (check_forward o e first_alerts) topology.get_downstream
            (record { seen = []; chains = [] }) services in
        let both =
          each_service (check_reverse o e first_alerts) topology.get_upstream forward services in
        if ltb (length services) 2 then [] else both.chains
  ]

-- The services that start a chain.
unfoldable pub upstream_causes : List PropagationChain → List String
upstream_causes [] = []
upstream_causes (c ∷ chains) = elim c.direction [
  | upstream_to_downstream ↦ c.first ∷ upstream_causes chains
  | downstream_to_upstream_unusual ↦ upstream_causes chains
]

unfoldable pub any_has : Dict SimplifiedAlert → List String → Bool
any_has alerts [] = false
any_has alerts (s ∷ services) =
    let others = any_has alerts services in if has s alerts then true else others

-- What each of the three reasons adds, and the reason.
abbrev pub scored : Bool → ℕ → Reason → ℕ × List Reason
scored true n reason = (n, reason ∷ [])
scored false n reason = (0, [])

module _ (topology : TopologyProvider) (start : ℕ) (causes : List String)
    (known : Dict SimplifiedAlert) where
  unfoldable pub score_service : String → SimplifiedAlert → RootCauseCandidate
  unfolding any_has
  score_service service alert =
      let upstreams = topology.get_upstream service in
      let first = scored (alert.active_at == start) 3 earliest_alert in
      let second = scored (elem service causes) 5 upstream_in_chain in
      let third =
        scored (not (any_has known upstreams) && ltb 0 (length upstreams)) 2 no_upstream_alert in
      record {
        service = service;
        alert_name = alert.alert_name;
        active_at = alert.active_at;
        reason = first.1 ++ second.1 ++ third.1;
        confidence = first.0 + second.0 + third.0;
      }

  -- The loop over the services with an alert.
  unfoldable pub score_all : Dict SimplifiedAlert → List RootCauseCandidate
  unfolding score_service
  score_all [] = []
  score_all ((service, alert) ∷ rest) =
      let others = score_all rest in
      let candidate = score_service service alert in
      if ltb 0 candidate.confidence then candidate ∷ others else others

module _ {F : Type 0} (o : Outside F) (e : Engine F) where
  -- The answer is none where the code reads the nil topology and panics.
  unfoldable pub identify_root_causes :
      List SimplifiedAlert → List PropagationChain → Option (List RootCauseCandidate)
  unfolding score_all upstream_causes
  identify_root_causes [] chains = some []
  identify_root_causes (a ∷ alerts) chains =
      let known = earliest_alerts o e [] (a ∷ alerts) in
      elim e.topology [
        | none ↦ elim known [ [] ↦ some [] | _ ∷ _ ↦ none ]
        | some topology ↦ some (
            take 3 (
              sort (λ c d. ltb d.confidence c.confidence)
                (score_all topology a.active_at (upstream_causes chains) known known)))
      ]

-- The summary and the time range, texts, are left out, and the success, which is always true.
pub record CorrelationResult : Type 0 where
  pub alert_groups : List AlertGroup
  pub propagation : List PropagationChain
  pub root_candidates : List RootCauseCandidate
  pub total_alerts : ℕ

module _ {F : Type 0} (o : Outside F) (e : Engine F) where
  unfoldable pub analyze : List SimplifiedAlert → Option CorrelationResult
  unfolding identify_root_causes detect_propagation group_by_time_window extract_services
  analyze alerts =
      let sorted = sort (λ a b. ltb a.active_at b.active_at) alerts in
      let propagation = detect_propagation o e sorted (extract_services o e sorted) in
      elim (identify_root_causes o e sorted propagation) [
        | none ↦ none
        | some roots ↦ some (record {
          alert_groups = group_by_time_window o e sorted;
          propagation = propagation;
          root_candidates = roots;
          total_alerts = length alerts;
        })
      ]
