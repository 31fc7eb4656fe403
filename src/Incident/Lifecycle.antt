-- ===== src/Incident/Lifecycle.antt =====
-- The life of an incident, internal/ai/incidentlifecycle/lifecycle.go. Times are milliseconds; a
-- difference of two times is an integer, since the clock may run backwards.
use ops_captain.Base.{
  ℕ, ◌/◌, ◌%◌, Bool, true, false, ◌&&◌, ◌||◌, String, List, [], ◌∷◌, ltb, leb, ◌==◌, if◌then◌else◌,
  length,
}
use ops_captain.Base.Int.{ℤ, sub_ℕ}

pub data IncidentSeverity : Type 0 where
  severity_p0 severity_p1 severity_p2 severity_p3 severity_p4 : IncidentSeverity

pub data LifecycleStatus : Type 0 where
  detected triaged responding mitigated resolved postmortem cancelled : LifecycleStatus

abbrev status_number : LifecycleStatus → ℕ
status_number detected = 0
status_number triaged = 1
status_number responding = 2
status_number mitigated = 3
status_number resolved = 4
status_number postmortem = 5
status_number cancelled = 6

-- `s == to` on two statuses.
abbrev pub same_status : LifecycleStatus → LifecycleStatus → Bool
same_status s t = status_number s == status_number t

-- `ValidTransitions`
abbrev pub valid_transitions : LifecycleStatus → List LifecycleStatus
valid_transitions detected = triaged ∷ cancelled ∷ []
valid_transitions triaged = responding ∷ cancelled ∷ []
valid_transitions responding = mitigated ∷ triaged ∷ cancelled ∷ []
valid_transitions mitigated = resolved ∷ cancelled ∷ []
valid_transitions resolved = postmortem ∷ []
valid_transitions postmortem = []
valid_transitions cancelled = []

pub record IncidentLifecycle : Type 0 where
  pub severity : IncidentSeverity
  pub status : LifecycleStatus
  pub affected_services : List String
  pub impact_summary : String
  pub detected_at : ℕ
  pub triaged_at : ℕ
  pub responding_at : ℕ
  pub mitigated_at : ℕ
  pub resolved_at : ℕ
  pub postmortem_at : ℕ
  pub mttd : ℤ
  pub mtta : ℤ
  pub mttr : ℤ

-- The loop over the allowed statuses.
unfoldable pub allows : List LifecycleStatus → LifecycleStatus → Bool
allows [] to = false
allows (s ∷ ss) to = same_status s to || allows ss to

-- The `switch` on the new status, once the status is set.
abbrev stamp : LifecycleStatus → IncidentLifecycle → ℕ → IncidentLifecycle
stamp triaged l now = record l {
  triaged_at = now;
  mtta = if ltb 0 l.detected_at then sub_ℕ now l.detected_at else l.mtta;
}
stamp responding l now = record l { responding_at = now }
stamp mitigated l now = record l { mitigated_at = now }
stamp resolved l now = record l {
  resolved_at = now;
  mttr = if ltb 0 l.detected_at then sub_ℕ now l.detected_at else l.mttr;
}
stamp postmortem l now = record l { postmortem_at = now }
stamp detected l now = l
stamp cancelled l now = l

-- `Transition`: the new lifecycle, and whether the transition was accepted (no error).
unfoldable pub transition : IncidentLifecycle → LifecycleStatus → ℕ → IncidentLifecycle × Bool
unfolding allows
transition l to now =
    if allows (valid_transitions l.status) to
    then (stamp to (record l { status = to }) now, true)
    else (l, false)

-- `InferSeverity`, of the number of affected services and of alerts.
unfoldable pub infer_severity : List String → ℕ → Bool → IncidentSeverity
infer_severity affected_services alert_count has_downstream =
    let service_count = length affected_services in
    if leb 5 service_count || (leb 3 service_count && has_downstream)
    then severity_p0
    else if leb 3 service_count || leb 5 alert_count
    then severity_p1
    else if leb 2 service_count || leb 3 alert_count
    then severity_p2
    else if leb 1 service_count
    then severity_p3
    else severity_p4

-- The text of a duration in milliseconds, by its numbers: "-", "s", "m s" or "h m s".
pub data DurationText : Type 0 where
  dash : DurationText
  in_seconds : ℕ → DurationText
  in_minutes : ℕ → ℕ → DurationText
  in_hours : ℕ → ℕ → ℕ → DurationText

-- `FormatDuration` on a number that is not negative.
unfoldable pub format_duration : ℕ → DurationText
format_duration ms =
    let hours = ms / 3600000 in
    let minutes = ms / 60000 % 60 in
    let seconds = ms / 1000 % 60 in
    if ms == 0
    then dash
    else if ltb 0 hours
    then in_hours hours minutes seconds
    else if ltb 0 minutes
    then in_minutes minutes seconds
    else in_seconds seconds
