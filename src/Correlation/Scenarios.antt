-- ===== src/Correlation/Scenarios.antt =====
-- Runs of internal/ai/alertcorrelation/engine.go on three alerts of two services.
use ops_captain.Base.{
  ℕ, ◌*◌, ◌≤◌, ◌≡◌, ◌≢◌, refl, String, none, some, List, [], ◌∷◌, ltb, str_eq, if◌then◌else◌,
  length, All, leb,
}
use ops_captain.Base.Dict.{AllEntries, lookup}
use ops_captain.Base.Sort.{IsSorted}
use ops_captain.Correlation.Engine.{
  SimplifiedAlert, RootCauseCandidate, TopologyProvider, Engine, Outside, minute,
  group_by_time_window, earliest_alerts, infer_service, label_of, without_port,
}
use ops_captain.Correlation.Chains.{detect_propagation, identify_root_causes}
use ops_captain.Correlation.Windows.{alerts_of, IsGroup, FollowEach, group_by_time_window-IsGroup}
use ops_captain.Correlation.Services.{concerns, IsFirst, IsKnownBy, earliest_alerts-earliest}
use ops_captain.Correlation.Causes.{IsChain, detect_propagation-IsChain}
use ops_captain.Correlation.Roots.{
  IsCause, identify_root_causes-IsCause, identify_root_causes-panics,
}

-- A threshold is a number of hundredths.
abbrev outside : Outside ℕ
outside = record {
  to_lower = λ t. t;
  last_colon = λ t. none;
  not_positive = λ t. leb t 0;
  above_one = λ t. ltb 100 t;
  seven_tenths = 70;
  reaches = λ n t. leb t n;
}

abbrev shop : TopologyProvider
shop = record {
  get_upstream = λ s. if str_eq s "web" then "db" ∷ [] else [];
  get_downstream = λ s. if str_eq s "db" then "web" ∷ [] else [];
  get_all_services = "web" ∷ "db" ∷ [];
}

abbrev engine : Engine ℕ
engine = record { topology = some shop; time_window_minutes = 5; propagation_threshold = 70 }

abbrev blind : Engine ℕ
blind = record engine { topology = none }

abbrev alert : String → ℕ → SimplifiedAlert
alert service minutes = record {
  alert_name = "HighErrorRate";
  description = "";
  state = "firing";
  active_at = minutes * minute;
  duration = "";
  labels = ("service", service) ∷ [];
}

abbrev alerts : List SimplifiedAlert
alerts = alert "db" 1 ∷ alert "web" 3 ∷ alert "web" 60 ∷ []

group_by_time_window-IsGroup_example :
    (alerts_of (group_by_time_window outside engine alerts) ≡ alerts)
    × All (IsGroup outside engine) (group_by_time_window outside engine alerts)
    × FollowEach outside engine 0 (group_by_time_window outside engine alerts)
group_by_time_window-IsGroup_example = group_by_time_window-IsGroup outside engine alerts

earliest_alerts-earliest_example :
    AllEntries (IsFirst outside engine) (earliest_alerts outside engine [] alerts)
    × All
        (λ a.
          infer_service outside engine a ≢ ""
          → IsKnownBy outside engine
              (earliest_alerts outside engine [] alerts)
              (infer_service outside engine a)
              a.active_at)
        alerts
earliest_alerts-earliest_example = earliest_alerts-earliest outside engine alerts

detect_propagation-IsChain_example :
    All
      (IsChain outside engine shop (earliest_alerts outside engine [] alerts))
      (detect_propagation outside engine alerts ("db" ∷ "web" ∷ []))
detect_propagation-IsChain_example =
    detect_propagation-IsChain outside engine shop alerts ("db" ∷ "web" ∷ []) refl

identify_root_causes-IsCause_example :
    (causes : List RootCauseCandidate) × (identify_root_causes outside engine alerts []
      ≡ some causes)
    × (length causes ≤ 3)
    × IsSorted (λ (c d : RootCauseCandidate). ltb d.confidence c.confidence) causes
    × All (IsCause (earliest_alerts outside engine [] alerts)) causes
identify_root_causes-IsCause_example =
    identify_root_causes-IsCause outside engine shop alerts [] refl

identify_root_causes-panics_example : identify_root_causes outside blind alerts [] ≡ none
unfolding concerns infer_service label_of without_port lookup
identify_root_causes-panics_example =
    identify_root_causes-panics outside blind "db" alerts [] refl refl

two_groups : length (group_by_time_window outside engine alerts) ≡ 2
unfolding group_by_time_window
two_groups = refl
