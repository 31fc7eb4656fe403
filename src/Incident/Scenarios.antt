-- ===== src/Incident/Scenarios.antt =====
-- Runs of the lifecycle of internal/ai/incidentlifecycle/lifecycle.go.
use ops_captain.Base.{ℕ, ◌≤◌, ◌≡◌, refl, ◌↔◌, inl, true, false, List, [], ◌∷◌, arith}
use ops_captain.Base.Int.{pos, sub_ℕ}
use ops_captain.Incident.Lifecycle.{
  severity_p2, LifecycleStatus, detected, triaged, responding, mitigated, resolved, cancelled,
  IncidentLifecycle, transition,
}
use ops_captain.Incident.Graph.{◌⟶◌, transition-accepts, run, resolved_in_order}

abbrev outage : IncidentLifecycle
outage = record {
  severity = severity_p2;
  status = detected;
  affected_services = "api" ∷ "db" ∷ [];
  impact_summary = "";
  detected_at = 1000;
  triaged_at = 0;
  responding_at = 0;
  mitigated_at = 0;
  resolved_at = 0;
  postmortem_at = 0;
  mttd = pos 0;
  mtta = pos 0;
  mttr = pos 0;
}

abbrev attempts : List (LifecycleStatus × ℕ)
attempts =
    (resolved, 1100)
    ∷ (triaged, 1200)
    ∷ (responding, 1300)
    ∷ (triaged, 1400)
    ∷ (responding, 1500)
    ∷ (mitigated, 1600)
    ∷ (resolved, 2000)
    ∷ []

transition-accepts_example :
    ((detected ⟶ resolved) ↔ (
      ((transition outage resolved 5).1 ≡ true)
      × ((transition outage resolved 5).0.status ≡ resolved)))
    × ((¬ (detected ⟶ resolved)) ↔ (transition outage resolved 5 ≡ (outage, false)))
transition-accepts_example = transition-accepts outage resolved 5

is_resolved : (run outage attempts).status ≡ resolved
unfolding run transition
is_resolved = refl

resolved_in_order_example :
    let e = run outage attempts in
    (e.detected_at ≤ e.triaged_at)
    × (e.triaged_at ≤ e.responding_at)
    × (e.responding_at ≤ e.mitigated_at)
    × (e.mitigated_at ≤ e.resolved_at)
    × (e.mttr ≡ sub_ℕ e.resolved_at e.detected_at)
resolved_in_order_example =
    resolved_in_order outage attempts refl (omega arith) refl (ground arith) (inl is_resolved)

abbrev dropped : IncidentLifecycle
dropped = record outage { status = cancelled }
