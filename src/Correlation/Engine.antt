-- ===== src/Correlation/Engine.antt =====
-- The engine of internal/ai/alertcorrelation/engine.go, with the types of types.go. Times are in
-- nanoseconds. Confidences are in hundredths and scores in tenths of the source's floats.
use Prim.Native.String.{slice}
use text.Mathlib.Text.{find?}
use ops_captain.Base.{
  ℕ, ◌+◌, ◌*◌, String, Bool, ◌||◌, Option, none, some, List, [], ◌∷◌, ◌++◌, ltb, str_eq,
  if◌then◌else◌, is_some,
}
use ops_captain.Base.Int.{ℤ, pos, leb_ℤ, pos_part}
use ops_captain.Base.Dict.{Dict, lookup, insert}
use ops_captain.Base.Sort.{elem}

pub record SimplifiedAlert : Type 0 where
  pub alert_name : String
  pub description : String
  pub state : String
  pub active_at : ℕ
  pub duration : String
  pub labels : Dict String

pub record AlertGroup : Type 0 where
  pub window_start : ℕ
  pub window_end : ℕ
  pub alerts : List SimplifiedAlert
  pub services : List String

pub data Direction : Type 0 where
  upstream_to_downstream downstream_to_upstream_unusual : Direction

-- The path, always of two services, is the first and the second; the evidence, a text, is the delay
-- that it tells.
pub record PropagationChain : Type 0 where
  pub first : String
  pub second : String
  pub direction : Direction
  pub confidence : ℕ
  pub delay : ℕ

pub data Reason : Type 0 where
  earliest_alert upstream_in_chain no_upstream_alert : Reason

pub record RootCauseCandidate : Type 0 where
  pub service : String
  pub alert_name : String
  pub active_at : ℕ
  pub reason : List Reason
  pub confidence : ℕ

pub record TopologyProvider : Type 0 where
  pub get_upstream : String → List String
  pub get_downstream : String → List String
  pub get_all_services : List String

-- The topology is none where the source's is nil. `reaches n t` is n / 100 >= t.
pub record Engine (F : Type 0) : Type 0 where
  pub topology : Option TopologyProvider
  pub time_window_minutes : ℕ
  pub propagation_threshold : F

-- Operations of Go's library on texts and of the machine on floats.
pub record Outside (F : Type 0) : Type 0 where
  pub to_lower : String → String
  pub last_colon : String → Option ℕ
  pub not_positive : F → Bool
  pub above_one : F → Bool
  pub seven_tenths : F
  pub reaches : ℕ → F → Bool

abbrev pub minute : ℕ
minute = 60000000000

module _ {F : Type 0} (o : Outside F) where
  unfoldable pub new_engine : Option TopologyProvider → ℤ → F → Engine F
  new_engine topology minutes threshold = record {
    topology = topology;
    time_window_minutes = if leb_ℤ minutes (pos 0) then 5 else pos_part minutes;
    propagation_threshold =
        if o.not_positive threshold || o.above_one threshold then o.seven_tenths else threshold;
  }

  -- A label without its port.
  unfoldable pub without_port : String → String
  without_port v = elim (o.last_colon v) [
    | none ↦ v
    | some index ↦ if ltb 0 index then slice v 0 index else v
  ]

  -- The first of the labels that is there and not empty.
  unfoldable pub label_of : Dict String → List String → Option String
  unfolding without_port
  label_of labels [] = none
  label_of labels (key ∷ keys) =
      let others = label_of labels keys in
      elim (lookup key labels) [
        | none ↦ others
        | some v ↦ if str_eq v "" then others else some (without_port v)
      ]

  mentions : String → String → Bool
  mentions text service = is_some (find? (o.to_lower text) (o.to_lower service))

  unfoldable pub named_service : SimplifiedAlert → List String → String
  unfolding mentions
  named_service alert [] = ""
  named_service alert (service ∷ services) =
      let others = named_service alert services in
      if mentions alert.alert_name service || mentions alert.description service
      then service
      else others

module _ {F : Type 0} (o : Outside F) (e : Engine F) where
  unfoldable pub infer_service : SimplifiedAlert → String
  unfolding label_of named_service
  infer_service alert =
      elim (label_of o alert.labels ("service" ∷ "instance" ∷ "job" ∷ "exported_service" ∷ [])) [
        | some v ↦ v
        | none ↦ elim e.topology [
          | none ↦ ""
          | some topology ↦ named_service o alert topology.get_all_services
        ]
      ]

  -- The loop of `extractServices` and `extractServicesFromGroup`, on the services so far.
  unfoldable pub collect_services : List String → List SimplifiedAlert → List String
  unfolding infer_service
  collect_services services [] = services
  collect_services services (a ∷ alerts) =
      let service = infer_service a in
      collect_services
        (if str_eq service "" || elem service services then services else services ++ service ∷ [])
        alerts

  unfoldable pub extract_services : List SimplifiedAlert → List String
  unfolding collect_services
  extract_services alerts = collect_services [] alerts

  unfoldable pub open_group : SimplifiedAlert → AlertGroup
  open_group alert = record {
    window_start = alert.active_at;
    window_end = alert.active_at + e.time_window_minutes * minute;
    alerts = alert ∷ [];
    services = [];
  }

  unfoldable pub close_group : AlertGroup → AlertGroup
  unfolding extract_services
  close_group g = record g { services = extract_services g.alerts }

  unfoldable pub join_group : AlertGroup → SimplifiedAlert → AlertGroup
  join_group g alert = record g {
    alerts = g.alerts ++ alert ∷ [];
    window_end = if ltb g.window_end alert.active_at then alert.active_at else g.window_end;
  }

  unfoldable pub group_from : AlertGroup → List SimplifiedAlert → List AlertGroup
  unfolding open_group close_group join_group
  group_from g [] = close_group g ∷ []
  group_from g (alert ∷ alerts) =
      let joined = group_from (join_group g alert) alerts in
      let opened = group_from (open_group alert) alerts in
      if ltb alert.active_at (g.window_end + e.time_window_minutes * minute)
      then joined
      else close_group g ∷ opened

  unfoldable pub group_by_time_window : List SimplifiedAlert → List AlertGroup
  unfolding group_from
  group_by_time_window [] = []
  group_by_time_window (alert ∷ alerts) = group_from (open_group alert) alerts

  -- The earliest alert of each service, as `identifyRootCauses` and `detectPropagation` find it.
  unfoldable pub note_earliest : Dict SimplifiedAlert → SimplifiedAlert → Dict SimplifiedAlert
  note_earliest known a =
      let service = infer_service a in
      if str_eq service "" then known else elim (lookup service known) [
        | none ↦ insert service a known
        | some before ↦ if ltb a.active_at before.active_at then insert service a known else known
      ]

  unfoldable pub earliest_alerts :
      Dict SimplifiedAlert → List SimplifiedAlert → Dict SimplifiedAlert
  unfolding note_earliest
  earliest_alerts known [] = known
  earliest_alerts known (a ∷ alerts) = earliest_alerts (note_earliest known a) alerts
