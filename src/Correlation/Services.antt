-- ===== src/Correlation/Services.antt =====
-- The services and first alerts that internal/ai/alertcorrelation/engine.go finds.
use ops_captain.Base.{
  ℕ, ◌≤◌, ◌≡◌, ◌≢◌, ◌⊎◌, refl, inl, inr, String, Bool, false, not, ◌&&◌, ◌||◌, some, List, [], ◌∷◌,
  ◌++◌, arith, ltb, str_eq, All, Bool-cases, Option-cases, eq_iff,
}
use ops_captain.Base.Dict.{
  Dict, lookup, insert, AllEntries, AllEntries-insert, lookup-insert, lookup-insert_self,
}
use ops_captain.Base.Sort.{elem, Distinct, elem-snoc, Distinct-snoc}
use ops_captain.Correlation.Engine.{
  SimplifiedAlert, Engine, Outside, infer_service, collect_services, extract_services,
  note_earliest, earliest_alerts,
}

module _ {F : Type 0} (o : Outside F) (e : Engine F) where
  -- Some alert is of the service.
  unfoldable pub concerns : String → List SimplifiedAlert → Bool
  concerns service [] = false
  concerns service (a ∷ alerts) =
      (not (str_eq service "") && str_eq (infer_service o e a) service) || concerns service alerts

  collect_services-elem :
      (service : String) (services : List String) (alerts : List SimplifiedAlert)
      → elem service (collect_services o e services alerts)
        ≡ (elem service services || concerns service alerts)
  unfolding collect_services concerns
  collect_services-elem service services [] = ground arith
  collect_services-elem service services (a ∷ alerts) =
      let found = infer_service o e a in
      ground (
        arith,
        collect_services-elem service services alerts,
        collect_services-elem service (services ++ found ∷ []) alerts,
        elem-snoc service found services,
        eq_iff found service,
        eq_iff found "",
        eq_iff service "",
      )

  collect_services-Distinct :
      (services : List String) (alerts : List SimplifiedAlert)
      → Distinct services
      → Distinct (collect_services o e services alerts)
  unfolding collect_services
  collect_services-Distinct services [] d = d
  collect_services-Distinct services (a ∷ alerts) d =
      let found = infer_service o e a in
      elim (Bool-cases (str_eq found "" || elem found services)) [
        | inl h ↦ rw (h, collect_services) (collect_services-Distinct services alerts d)
        | inr h ↦
            rw (h, collect_services)
              (collect_services-Distinct (services ++ found ∷ []) alerts
                (Distinct-snoc found services (ground arith) d))
      ]

  -- The extracted services are distinct, and a text is among them exactly if it is not empty and
  -- some alert is of that service.
  pub extract_services-concerns :
      (alerts : List SimplifiedAlert)
      → Distinct (extract_services o e alerts)
        × ((service : String)
            → elem service (extract_services o e alerts) ≡ concerns service alerts)
  unfolding extract_services elem
  extract_services-concerns alerts =
      (collect_services-Distinct [] alerts tt, λ service. collect_services-elem service [] alerts)

  -- A known first alert is of its service, which is not empty.
  abbrev pub IsFirst : String → SimplifiedAlert → Type 0
  IsFirst service a = (infer_service o e a ≡ service) × (service ≢ "")

  -- The service's known alert is not later than `time`.
  abbrev pub IsKnownBy : Dict SimplifiedAlert → String → ℕ → Type 0
  IsKnownBy known service time =
      (x : SimplifiedAlert) × (lookup service known ≡ some x) × (x.active_at ≤ time)

  -- An alert is passed over if it has no service or is not the earliest; else it is entered.
  note_earliest-cases :
      (known : Dict SimplifiedAlert) (a : SimplifiedAlert)
      → ((note_earliest o e known a ≡ known)
          × (infer_service o e a ≢ "" → IsKnownBy known (infer_service o e a) a.active_at))
        ⊎ ((note_earliest o e known a ≡ insert (infer_service o e a) a known)
            × (infer_service o e a ≢ "")
            × ((x : SimplifiedAlert)
                → lookup (infer_service o e a) known ≡ some x
                → a.active_at ≤ x.active_at))
  unfolding note_earliest
  note_earliest-cases known a =
      let service = infer_service o e a in
      elim (Bool-cases (str_eq service "")) [
        | inl h ↦ inl (ground arith, λ named. absurd (named ((eq_iff service "").0 h)))
        | inr h ↦ elim (Option-cases (lookup service known)) [
          | inl missing ↦ inr (
            ground arith,
            λ empty. ground (arith, eq_iff service "", empty),
            λ x held. absurd (ground arith),
          )
          | inr (before, held) ↦ elim (Bool-cases (ltb a.active_at before.active_at)) [
            | inl less ↦ inr (
              ground arith,
              λ empty. ground (arith, eq_iff service "", empty),
              λ x same. ground arith,
            )
            | inr more ↦ inl (ground arith, λ named. (before, held, ground arith))
          ]
        ]
      ]

  note_earliest-IsFirst :
      (known : Dict SimplifiedAlert) (a : SimplifiedAlert)
      → AllEntries IsFirst known
      → AllEntries IsFirst (note_earliest o e known a)
  note_earliest-IsFirst known a h = elim (note_earliest-cases known a) [
    | inl (same, _) ↦ rw same h
    | inr (entered, named, _) ↦
        rw entered (AllEntries-insert IsFirst (infer_service o e a) a known (refl, named) h)
  ]

  earliest_alerts-IsFirst :
      (known : Dict SimplifiedAlert) (alerts : List SimplifiedAlert)
      → AllEntries IsFirst known
      → AllEntries IsFirst (earliest_alerts o e known alerts)
  unfolding earliest_alerts
  earliest_alerts-IsFirst known [] h = h
  earliest_alerts-IsFirst known (a ∷ alerts) h =
      earliest_alerts-IsFirst (note_earliest o e known a) alerts (note_earliest-IsFirst known a h)

  note_earliest-keeps :
      (known : Dict SimplifiedAlert) (a : SimplifiedAlert) (service : String) (time : ℕ)
      → IsKnownBy known service time
      → IsKnownBy (note_earliest o e known a) service time
  note_earliest-keeps known a service time (x, held, le) = elim (note_earliest-cases known a) [
    | inl (same, _) ↦ rw same (x, held, le)
    | inr (entered, named, earlier) ↦ elim (Bool-cases (str_eq (infer_service o e a) service)) [
      | inl h ↦ rw entered (
        a,
        ground (arith, lookup-insert (infer_service o e a) service a known),
        ground (arith, eq_iff (infer_service o e a) service, earlier x),
      )
      | inr h ↦
          rw entered (x, ground (arith, lookup-insert (infer_service o e a) service a known), le)
    ]
  ]

  note_earliest-notes :
      (known : Dict SimplifiedAlert) (a : SimplifiedAlert)
      → infer_service o e a ≢ ""
      → IsKnownBy (note_earliest o e known a) (infer_service o e a) a.active_at
  note_earliest-notes known a named = elim (note_earliest-cases known a) [
    | inl (same, known_by) ↦ rw same (known_by named)
    | inr (entered, _, _) ↦
        rw entered (a, lookup-insert_self (infer_service o e a) a known, omega arith)
  ]

  earliest_alerts-keeps :
      (known : Dict SimplifiedAlert) (alerts : List SimplifiedAlert) (service : String) (time : ℕ)
      → IsKnownBy known service time
      → IsKnownBy (earliest_alerts o e known alerts) service time
  unfolding earliest_alerts
  earliest_alerts-keeps known [] service time k = k
  earliest_alerts-keeps known (a ∷ alerts) service time k =
      earliest_alerts-keeps (note_earliest o e known a) alerts service time
        (note_earliest-keeps known a service time k)

  earliest_alerts-bound :
      (known : Dict SimplifiedAlert) (alerts : List SimplifiedAlert)
      → All
          (λ a.
            infer_service o e a ≢ ""
            → IsKnownBy (earliest_alerts o e known alerts) (infer_service o e a) a.active_at)
          alerts
  unfolding earliest_alerts
  earliest_alerts-bound known [] = tt
  earliest_alerts-bound known (a ∷ alerts) = (
    λ named.
        earliest_alerts-keeps (note_earliest o e known a) alerts (infer_service o e a) a.active_at
          (note_earliest-notes known a named),
    earliest_alerts-bound (note_earliest o e known a) alerts,
  )

  -- Every entry of the map of first alerts holds an alert of the service that is its key, and every
  -- alert of a service has an entry, with an alert that is not later.
  pub earliest_alerts-earliest :
      (alerts : List SimplifiedAlert)
      → AllEntries IsFirst (earliest_alerts o e [] alerts)
        × All
            (λ a.
              infer_service o e a ≢ ""
              → IsKnownBy (earliest_alerts o e [] alerts) (infer_service o e a) a.active_at)
            alerts
  earliest_alerts-earliest alerts =
      (earliest_alerts-IsFirst [] alerts tt, earliest_alerts-bound [] alerts)
