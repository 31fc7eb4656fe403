-- ===== src/Incident/Graph.antt =====
-- Which lives an incident of internal/ai/incidentlifecycle/lifecycle.go can have, and what its
-- stamps and measures then say.
use ops_captain.Base.{
  Bool-cases, inl, inr, ℕ, ◌+◌, ◌*◌, ◌/◌, ◌≤◌, ◌<◌, ◌≡◌, refl, ap, ◌↔◌, ◌⊎◌, Bool, true, false,
  String, List, [], ◌∷◌, arith, length,
}
use ops_captain.Base.Int.{sub_ℕ}
use ops_captain.Incident.Lifecycle.{
  IncidentSeverity, severity_p0, severity_p1, severity_p2, severity_p3, severity_p4,
  LifecycleStatus, detected, triaged, responding, mitigated, resolved, postmortem, cancelled,
  IncidentLifecycle, valid_transitions, allows, transition, infer_severity, DurationText, dash,
  in_seconds, in_minutes, in_hours, format_duration,
}

infix 40 ◌⟶◌
-- The arrows of the lifecycle, read off its table: a stage is cancelled before it is resolved.
pub data ◌⟶◌ : LifecycleStatus → LifecycleStatus → Type 0 where
  triage : detected ⟶ triaged
  respond : triaged ⟶ responding
  mitigate : responding ⟶ mitigated
  triage_again : responding ⟶ triaged
  resolve : mitigated ⟶ resolved
  review : resolved ⟶ postmortem
  cancel_detected : detected ⟶ cancelled
  cancel_triaged : triaged ⟶ cancelled
  cancel_responding : responding ⟶ cancelled
  cancel_mitigated : mitigated ⟶ cancelled

ruleset arrows = (
  triage, respond, mitigate, triage_again, resolve, review, cancel_detected, cancel_triaged,
  cancel_responding, cancel_mitigated,
)

arrow_of_allows : (s to : LifecycleStatus) → allows (valid_transitions s) to ≡ true → s ⟶ to
unfolding allows
arrow_of_allows s to h = grind (arith, arrows)

allows_of_arrow : {s to : LifecycleStatus} → s ⟶ to → allows (valid_transitions s) to ≡ true
unfolding allows
allows_of_arrow triage = refl
allows_of_arrow respond = refl
allows_of_arrow mitigate = refl
allows_of_arrow triage_again = refl
allows_of_arrow resolve = refl
allows_of_arrow review = refl
allows_of_arrow cancel_detected = refl
allows_of_arrow cancel_triaged = refl
allows_of_arrow cancel_responding = refl
allows_of_arrow cancel_mitigated = refl

-- A transition is accepted exactly along an arrow, from each stage to the next, from responding back to
-- triaged, and from the four stages before resolved to cancelled, and then sets the status to its
-- target; off the arrows, and only there, it is refused and changes nothing.
pub transition-accepts :
    (l : IncidentLifecycle) (to : LifecycleStatus) (now : ℕ)
    → ((l.status ⟶ to) ↔ (((transition l to now).1 ≡ true) × ((transition l to now).0.status ≡ to)))
      × ((¬ (l.status ⟶ to)) ↔ (transition l to now ≡ (l, false)))
unfolding transition
transition-accepts l to now = elim (Bool-cases (allows (valid_transitions l.status) to)) [
  | inl good ↦
      rw (good, transition)
        (
          (λ a. (refl, ground arith), λ h. arrow_of_allows l.status to good),
          (λ n. absurd (n (arrow_of_allows l.status to good)), λ e. cc (ap (λ p. p.1) e)),
        )
  | inr bad ↦
      rw (bad, transition)
        ((λ a. cc (allows_of_arrow a), λ h. cc (h.0)), (λ n. refl, λ e a. cc (allows_of_arrow a)))
]

-- Statuses that no transition leaves.
abbrev pub IsFinal : LifecycleStatus → Type 0
IsFinal s = (s ≡ postmortem) ⊎ (s ≡ cancelled)

unfoldable pub run : IncidentLifecycle → List (LifecycleStatus × ℕ) → IncidentLifecycle
run l [] = l
run l ((to, now) ∷ rest) = run (transition l to now).0 rest

-- The times of the attempts do not fall, and start no earlier than `clock`.
abbrev pub Chronological : ℕ → List (LifecycleStatus × ℕ) → Type 0
Chronological clock [] = Unit
Chronological clock ((to, now) ∷ rest) = (clock ≤ now) × Chronological now rest

-- The order of the stamps, and what the measures are.
pub record IsTimely (clock : ℕ) (l : IncidentLifecycle) : Type 0 where
  pub known : 0 < l.detected_at
  pub triage_after : l.status ≡ triaged → l.detected_at ≤ l.triaged_at
  pub triage_past : l.triaged_at ≤ clock
  pub respond_after :
      l.status ≡ responding → (l.detected_at ≤ l.triaged_at) × (l.triaged_at ≤ l.responding_at)
  pub respond_past : l.responding_at ≤ clock
  pub mitigate_after :
      l.status ≡ mitigated
      → (l.detected_at ≤ l.triaged_at)
        × (l.triaged_at ≤ l.responding_at)
        × (l.responding_at ≤ l.mitigated_at)
  pub mitigate_past : l.mitigated_at ≤ clock
  pub resolve_after :
      (l.status ≡ resolved) ⊎ (l.status ≡ postmortem)
      → (l.detected_at ≤ l.triaged_at)
        × (l.triaged_at ≤ l.responding_at)
        × (l.responding_at ≤ l.mitigated_at)
        × (l.mitigated_at ≤ l.resolved_at)
        × (l.mttr ≡ sub_ℕ l.resolved_at l.detected_at)
  pub detect_past : l.detected_at ≤ clock

transition-IsTimely :
    (l : IncidentLifecycle) (to : LifecycleStatus) (clock now : ℕ)
    → clock ≤ now
    → IsTimely clock l
    → IsTimely now (transition l to now).0
unfolding transition
transition-IsTimely l to clock now h t = ground arith

run-IsTimely :
    (l : IncidentLifecycle) (clock : ℕ) (rest : List (LifecycleStatus × ℕ))
    → Chronological clock rest
    → IsTimely clock l
    → (last : ℕ) × IsTimely last (run l rest)
unfolding run
run-IsTimely l clock [] c t = (clock, t)
run-IsTimely l clock ((to, now) ∷ rest) c t =
    run-IsTimely (transition l to now).0 now rest c.1 (transition-IsTimely l to clock now c.0 t)

-- An incident that was detected at a known time, and has no later stamp, passes through any attempted
-- transitions, the clock not running backwards: once it is resolved, or reviewed after that, its
-- stamps are in the order of the stages and its time to repair is from detection to resolution.
pub resolved_in_order :
    (l : IncidentLifecycle) (rest : List (LifecycleStatus × ℕ))
    → l.status ≡ detected
    → 0 < l.detected_at
    → l.triaged_at + l.responding_at + l.mitigated_at ≡ 0
    → Chronological l.detected_at rest
    → ((run l rest).status ≡ resolved) ⊎ ((run l rest).status ≡ postmortem)
    → let e = run l rest in
      (e.detected_at ≤ e.triaged_at)
      × (e.triaged_at ≤ e.responding_at)
      × (e.responding_at ≤ e.mitigated_at)
      × (e.mitigated_at ≤ e.resolved_at)
      × (e.mttr ≡ sub_ℕ e.resolved_at e.detected_at)
resolved_in_order l rest d k z c r =
    (run-IsTimely l l.detected_at rest c (ground arith)).1.resolve_after r

final_unchanged :
    (l : IncidentLifecycle) (to : LifecycleStatus) (now : ℕ)
    → IsFinal l.status
    → (transition l to now).0 ≡ l
unfolding transition
final_unchanged l to now f = ground arith

-- A reviewed or cancelled incident stays as it is through any attempted transitions.
pub final-run :
    (l : IncidentLifecycle) (rest : List (LifecycleStatus × ℕ)) → IsFinal l.status → run l rest ≡ l
unfolding run
final-run l [] f = refl
final-run l ((to, now) ∷ rest) f = rw (final_unchanged l to now f) (final-run l rest f)

-- How urgent a severity is.
abbrev pub urgency : IncidentSeverity → ℕ
urgency severity_p0 = 4
urgency severity_p1 = 3
urgency severity_p2 = 2
urgency severity_p3 = 1
urgency severity_p4 = 0

-- `true` is at least `false`.
abbrev pub Implies : Bool → Bool → Type 0
Implies a b = a ≡ true → b ≡ true

-- With at least as many services and alerts, and a downstream wherever there was one, the inferred
-- severity is at least as urgent.
pub infer_severity_mono :
    (xs ys : List String) (m n : ℕ) (a b : Bool)
    → length xs ≤ length ys
    → m ≤ n
    → Implies a b
    → urgency (infer_severity xs m a) ≤ urgency (infer_severity ys n b)
unfolding infer_severity
infer_severity_mono xs ys m n a b h k i = ground arith

-- The seconds that a text of a duration stands for.
abbrev pub seconds_of : DurationText → ℕ
seconds_of dash = 0
seconds_of (in_seconds s) = s
seconds_of (in_minutes m s) = m * 60 + s
seconds_of (in_hours h m s) = h * 3600 + m * 60 + s

-- The text of a duration loses less than a second of it.
pub format_duration_exact : (ms : ℕ) → seconds_of (format_duration ms) ≡ ms / 1000
unfolding format_duration
format_duration_exact ms = ground arith
