-- ===== src/Correlation/Roots.antt =====
-- The root causes of internal/ai/alertcorrelation/engine.go.
use ops_captain.Base.{
  ℕ, zero, suc, ◌≤◌, ◌<◌, ◌≡◌, ◌≢◌, ◌⊎◌, refl, sym, ap, ◌∙◌, str_eq, eq_iff, inl, inr, String, Bool,
  true, not, ◌&&◌, none, some, List, [], ◌∷◌, arith, ltb, ◌==◌, length, take, All, All-map,
  All-take, length-take-le, Bool-cases,
}
use ops_captain.Base.Dict.{Dict, lookup}
use ops_captain.Base.Sort.{sort, elem, place, NoneLess, IsSorted, sort-IsSorted}
use ops_captain.Correlation.Engine.{
  SimplifiedAlert, PropagationChain, RootCauseCandidate, TopologyProvider, Engine, Outside,
  infer_service, earliest_alerts,
}
use ops_captain.Correlation.Services.{concerns, IsKnownBy, earliest_alerts-earliest}
use ops_captain.Correlation.Chains.{
  any_has, score_service, score_all, upstream_causes, identify_root_causes,
}

List-cases {ℓ} : {A : Type ℓ} (xs : List A) → (xs ≡ []) ⊎ ((y : A) × (ys : List A) × (xs ≡ y ∷ ys))
List-cases [] = inl refl
List-cases (y ∷ ys) = inr (y, ys, refl)

-- An entry of a map.
abbrev pub IsEntry : String → SimplifiedAlert → Dict SimplifiedAlert → Type 0
IsEntry service a [] = ⊥
IsEntry service a ((s, b) ∷ known) = ((s ≡ service) × (b ≡ a)) ⊎ IsEntry service a known

-- A cause is an alerting service, with the name and the time of its first alert; its score, in tenths, is
-- positive and at most 10.
abbrev pub IsCause : Dict SimplifiedAlert → RootCauseCandidate → Type 0
IsCause known c =
    (a : SimplifiedAlert) × IsEntry c.service a known
    × (c.alert_name ≡ a.alert_name)
    × (c.active_at ≡ a.active_at)
    × (0 < c.confidence)
    × (c.confidence ≤ 10)

place-All {ℓ κ} :
    {A : Type ℓ} (less : A → A → Bool) (P : A → Type κ) (a : A) (xs : List A)
    → P a
    → All P xs
    → All P (place less a xs)
unfolding place
place-All less P a [] p h = (p, tt)
place-All less P a (x ∷ xs) p h = elim (Bool-cases (less x a)) [
  | inl e ↦ rw (e, place) (h.0, place-All less P a xs p h.1)
  | inr e ↦ rw (e, place) (p, h)
]

sort-All {ℓ κ} :
    {A : Type ℓ} (less : A → A → Bool) (P : A → Type κ) (xs : List A)
    → All P xs
    → All P (sort less xs)
unfolding sort
sort-All less P [] h = tt
sort-All less P (x ∷ xs) h = place-All less P x (sort less xs) h.0 (sort-All less P xs h.1)

NoneLess-take {ℓ} :
    {A : Type ℓ} (less : A → A → Bool) (n : ℕ) (a : A) (xs : List A)
    → NoneLess less a xs
    → NoneLess less a (take n xs)
NoneLess-take less zero a xs h = tt
NoneLess-take less (suc n) a [] h = tt
NoneLess-take less (suc n) a (x ∷ xs) h = (h.0, NoneLess-take less n a xs h.1)

take-IsSorted {ℓ} :
    {A : Type ℓ} (less : A → A → Bool) (n : ℕ) (xs : List A)
    → IsSorted less xs
    → IsSorted less (take n xs)
take-IsSorted less zero xs s = tt
take-IsSorted less (suc n) [] s = tt
take-IsSorted less (suc n) (x ∷ xs) s = (NoneLess-take less n x xs s.0, take-IsSorted less n xs s.1)

module _ (topology : TopologyProvider) (start : ℕ) (causes : List String)
    (known : Dict SimplifiedAlert) where
  score_service-bound :
      (service : String) (a : SimplifiedAlert)
      → (score_service topology start causes known service a).confidence ≤ 10
  unfolding score_service
  score_service-bound service a = ground (
    arith,
    Bool-cases (a.active_at == start),
    Bool-cases (elem service causes),
    Bool-cases (
        not (any_has known (topology.get_upstream service))
        && ltb 0 (length (topology.get_upstream service))),
  )

  score_all-IsCause :
      (rest : Dict SimplifiedAlert)
      → All (IsCause rest) (score_all topology start causes known rest)
  unfolding score_all score_service
  score_all-IsCause [] = tt
  score_all-IsCause ((service, a) ∷ rest) =
      let candidate = score_service topology start causes known service a in
      let others =
        All-map (IsCause rest) (IsCause ((service, a) ∷ rest))
          (score_all topology start causes known rest)
          (λ c (b, entry, name, time, some_score, most).
            (b, inr entry, name, time, some_score, most))
          (score_all-IsCause rest) in
      elim (Bool-cases (ltb 0 candidate.confidence)) [
        | inl e ↦
            rw (e, score_all)
              (
                (a, inl (refl, refl), refl, refl, ground arith, score_service-bound service a),
                others,
              )
        | inr e ↦ rw (e, score_all) others
      ]

module _ {F : Type 0} (o : Outside F) (e : Engine F) where
  -- With a topology, at most three root causes are named, by falling scores; each is a service with
  -- the name and the time of its first alert and a score between 0.1 and 1.
  pub identify_root_causes-IsCause :
      (topology : TopologyProvider) (alerts : List SimplifiedAlert) (chains : List PropagationChain)
      → e.topology ≡ some topology
      → (causes : List RootCauseCandidate) × (identify_root_causes o e alerts chains ≡ some causes)
        × (length causes ≤ 3)
        × IsSorted (λ (c d : RootCauseCandidate). ltb d.confidence c.confidence) causes
        × All (IsCause (earliest_alerts o e [] alerts)) causes
  unfolding identify_root_causes
  identify_root_causes-IsCause topology [] chains h = ([], refl, omega arith, tt, tt)
  identify_root_causes-IsCause topology (a ∷ alerts) chains h =
      let known = earliest_alerts o e [] (a ∷ alerts) in
      let by_score = λ (c d : RootCauseCandidate). ltb d.confidence c.confidence in
      let all = score_all topology a.active_at (upstream_causes chains) known known in
      (
        take 3 (sort by_score all),
        ground (arith, h),
        length-take-le 3 (sort by_score all),
        take-IsSorted by_score 3 (sort by_score all)
            (sort-IsSorted by_score (λ c d. ground arith) (λ b c d. ground arith) all),
        All-take (IsCause known) 3 (sort by_score all) (
            sort-All by_score (IsCause known) all
              (score_all-IsCause topology a.active_at (upstream_causes chains) known known)),
      )

  known_concerns :
      (known : Dict SimplifiedAlert) (service : String) (alerts : List SimplifiedAlert)
      → All
          (λ a. infer_service o e a ≢ "" → IsKnownBy o e known (infer_service o e a) a.active_at)
          alerts
      → concerns o e service alerts ≡ true
      → (x : SimplifiedAlert) × (lookup service known ≡ some x)
  unfolding concerns
  known_concerns known service [] bound h = absurd (cc h)
  known_concerns known service (a ∷ alerts) bound h =
      let found = infer_service o e a in
      elim (Bool-cases (not (str_eq service "") && str_eq found service)) [
        | inr other ↦ known_concerns known service alerts bound.1 (ground arith)
        | inl same ↦
            let (x, held, le) =
              bound.0
                (λ empty. ground (arith, same, empty, eq_iff found service, eq_iff service "")) in
            (x, ground (arith, held, same, eq_iff found service))
      ]

  no_entry :
      (known : Dict SimplifiedAlert) (service : String) (x : SimplifiedAlert)
      → lookup service known ≡ some x
      → known ≢ []
  unfolding lookup
  no_entry known service x held empty = cc (sym (ap (lookup service) empty) ∙ held)

  -- Without a topology, the analysis of alerts of which one is of a service panics.
  pub identify_root_causes-panics :
      (service : String) (alerts : List SimplifiedAlert) (chains : List PropagationChain)
      → e.topology ≡ none
      → concerns o e service alerts ≡ true
      → identify_root_causes o e alerts chains ≡ none
  unfolding identify_root_causes concerns
  identify_root_causes-panics service [] chains h named = absurd (cc named)
  identify_root_causes-panics service (a ∷ alerts) chains h named =
      let known = earliest_alerts o e [] (a ∷ alerts) in
      let (x, held) =
        known_concerns known service (a ∷ alerts) (earliest_alerts-earliest o e (a ∷ alerts)).1
          named in
      elim (List-cases known) [
        | inl empty ↦ absurd (no_entry known service x held empty)
        | inr (first, rest, full) ↦ ground (arith, h, full)
      ]
