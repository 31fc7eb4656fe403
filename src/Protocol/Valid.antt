-- ===== src/Protocol/Valid.antt =====
-- What the check of internal/ai/protocol/validate.go accepts.
use Prim.Native.String.{len}
use mathlib.Core.Option.{some_inj}
use ops_captain.Base.{
  ℕ, suc, ◌≤◌, ◌≡◌, ◌≢◌, ◌↔◌, ◌⊎◌, refl, ap, subst, inl, inr, String, Bool, true, false, not, ◌&&◌,
  Option, none, some, List, [], ◌∷◌, arith, ltb, if◌then◌else◌, is_some, All, Bool-cases,
  Option-cases, eq_iff,
}
use ops_captain.Protocol.{
  TaskResult, TaskError, EvidenceItem, ResultStatus, result_succeeded, result_failed,
  result_degraded, other_status,
}
use ops_captain.Protocol.Validate.{
  ValidationError, task_id_required, agent_required, invalid_status, summary_required,
  summary_too_long, degradation_reason_required, error_required, confidence_out_of_range, Outside,
  is_known, is_degraded, is_failed, is_blank, validate_evidence, validate_error,
  validate_task_result,
}

known_cases :
    (s : ResultStatus)
    → is_known s ≡ true
    → (s ≡ result_succeeded) ⊎ (s ≡ result_failed) ⊎ (s ≡ result_degraded)
known_cases result_succeeded h = inl refl
known_cases result_failed h = inr (inl refl)
known_cases result_degraded h = inr (inr refl)
known_cases (other_status text) h = absurd (cc h)

is_known_of :
    (s : ResultStatus)
    → (s ≡ result_succeeded) ⊎ (s ≡ result_failed) ⊎ (s ≡ result_degraded)
    → is_known s ≡ true
is_known_of s (inl e) = ap is_known e
is_known_of s (inr (inl e)) = ap is_known e
is_known_of s (inr (inr e)) = ap is_known e

failed_is : (s : ResultStatus) → is_failed s ≡ true → s ≡ result_failed
failed_is result_failed h = refl
failed_is result_succeeded h = absurd (cc h)
failed_is result_degraded h = absurd (cc h)
failed_is (other_status text) h = absurd (cc h)

degraded_is : (s : ResultStatus) → is_degraded s ≡ true → s ≡ result_degraded
degraded_is result_degraded h = refl
degraded_is result_succeeded h = absurd (cc h)
degraded_is result_failed h = absurd (cc h)
degraded_is (other_status text) h = absurd (cc h)

module _ {F : Type 0} (o : Outside F) where
  -- Texts that are not blank.
  abbrev pub IsNamed : String → Type 0
  IsNamed text = o.trim_space text ≢ ""

  -- What a result is to be.
  pub record IsValid {Any : Type 0} (r : TaskResult Any F) : Type 0 where
    pub task_named : IsNamed r.task_id
    pub agent_named : IsNamed r.agent
    pub known_status :
        (r.status ≡ result_succeeded) ⊎ (r.status ≡ result_failed) ⊎ (r.status ≡ result_degraded)
    pub summarized : IsNamed r.summary
    pub short : len r.summary ≤ 4096
    pub explained : r.status ≡ result_degraded → IsNamed r.degradation_reason
    pub failed_with : r.status ≡ result_failed → (e : TaskError) × (r.error ≡ some e)
    pub confident : o.out_of_range r.confidence ≡ false
    pub evident : All (λ item. IsNamed item.source_type × IsNamed item.title) r.evidence
    pub told : (e : TaskError) → r.error ≡ some e → IsNamed e.code ⊎ IsNamed e.message

  named : (text : String) → is_blank o text ≡ false → IsNamed text
  named text h e = ground (arith, h, e, eq_iff (o.trim_space text) "")

  not_blank : (text : String) → IsNamed text → is_blank o text ≡ false
  not_blank text h = ground (arith, h, eq_iff (o.trim_space text) "")

  validate_evidence-All :
      (i : ℕ) (items : List (EvidenceItem F))
      → (validate_evidence o i items ≡ none)
        ↔ All (λ item. IsNamed item.source_type × IsNamed item.title) items
  unfolding validate_evidence
  validate_evidence-All i [] = (λ h. tt, λ a. refl)
  validate_evidence-All i (item ∷ items) =
      let (forth, back) = validate_evidence-All (suc i) items in
      elim (Bool-cases (is_blank o item.source_type)) [
        | inl a ↦ (
          λ h. absurd (ground (arith, h, a)),
          λ all. absurd (all.0.0 ((eq_iff (o.trim_space item.source_type) "").0 a)),
        )
        | inr a ↦ elim (Bool-cases (is_blank o item.title)) [
          | inl b ↦ (
            λ h. absurd (ground (arith, h, a, b)),
            λ all. absurd (all.0.1 ((eq_iff (o.trim_space item.title) "").0 b)),
          )
          | inr b ↦ (
            λ h. ((named item.source_type a, named item.title b), forth (ground (arith, h, a, b))),
            λ all. ground (arith, a, b, back all.1),
          )
        ]
      ]

  -- A guard of the chain that did not refuse.
  passed :
      (b : Bool) (e : ValidationError) (rest : Option ValidationError)
      → (if b then some e else rest) ≡ none
      → (b ≡ false) × (rest ≡ none)
  passed b e rest h = elim (Bool-cases b) [
    | inl t ↦ absurd (ground (arith, h, t))
    | inr f ↦ (f, ground (arith, h, f))
  ]

  both :
      (a : Option ValidationError) (b : Option ValidationError)
      → elim a as (λ x. Option ValidationError) [ some e ↦ some e | none ↦ b ] ≡ none
      → (a ≡ none) × (b ≡ none)
  both none b h = (refl, h)
  both (some e) b h = absurd (cc h)

  error_told :
      (error : Option TaskError)
      → (validate_error o error ≡ none)
        ↔ ((e : TaskError) → error ≡ some e → IsNamed e.code ⊎ IsNamed e.message)
  unfolding validate_error
  error_told none = (λ h e s. absurd (cc s), λ t. refl)
  error_told (some x) = (
    λ h e s.
        subst (λ y. IsNamed y.code ⊎ IsNamed y.message) (some_inj.0 s)
          (elim (Bool-cases (is_blank o x.code)) [
            | inr a ↦ inl (named x.code a)
            | inl a ↦ inr (named x.message (ground (arith, h, a)))
          ]),
    λ t. elim (t x refl) [
      | inl a ↦ ground (arith, not_blank x.code a)
      | inr b ↦ ground (arith, not_blank x.message b)
    ],
  )

  IsValid-of :
      {Any : Type 0} (r : TaskResult Any F) → validate_task_result o (some r) ≡ none → IsValid r
  unfolding validate_task_result
  IsValid-of r h =
      let (task, h1) = passed (is_blank o r.task_id) task_id_required _ h in
      let (agent, h2) = passed (is_blank o r.agent) agent_required _ h1 in
      let (status, h3) = passed (not (is_known r.status)) invalid_status _ h2 in
      let (summary, h4) = passed (is_blank o r.summary) summary_required _ h3 in
      let (size, h5) = passed (ltb 4096 (len r.summary)) summary_too_long _ h4 in
      let (reason, h6) =
        passed (is_degraded r.status && is_blank o r.degradation_reason) degradation_reason_required
          _ h5 in
      let (error, h7) = passed (is_failed r.status && not (is_some r.error)) error_required _ h6 in
      let (confidence, h8) = passed (o.out_of_range r.confidence) confidence_out_of_range _ h7 in
      let (evidence, told) =
        both (validate_evidence o 0 r.evidence) (validate_error o r.error) h8 in
      record {
        task_named = named r.task_id task;
        agent_named = named r.agent agent;
        known_status = known_cases r.status (ground (arith, status));
        summarized = named r.summary summary;
        short = ground (arith, size);
        explained = λ e. named r.degradation_reason (ground (arith, reason, ap is_degraded e));
        failed_with = λ e. elim (Option-cases r.error) [
          | inl missing ↦ absurd (ground (arith, error, missing, ap is_failed e))
          | inr found ↦ found
        ];
        confident = confidence;
        evident = (validate_evidence-All 0 r.evidence).0 evidence;
        told = (error_told r.error).0 told;
      }

  none_of :
      {Any : Type 0} (r : TaskResult Any F) → IsValid r → validate_task_result o (some r) ≡ none
  unfolding validate_task_result
  none_of r v =
      let error : (is_failed r.status && not (is_some r.error)) ≡ false =
        elim (Bool-cases (is_failed r.status)) [
          | inr e ↦ ground (arith, e)
          | inl e ↦ let (x, found) = v.failed_with (failed_is r.status e) in ground (arith, found)
        ] in
      let reason : (is_degraded r.status && is_blank o r.degradation_reason) ≡ false =
        elim (Bool-cases (is_degraded r.status)) [
          | inr e ↦ ground (arith, e)
          | inl e ↦
              ground (arith, not_blank r.degradation_reason (v.explained (degraded_is r.status e)))
        ] in
      ground (
        arith,
        error,
        reason,
        not_blank r.task_id v.task_named,
        not_blank r.agent v.agent_named,
        is_known_of r.status v.known_status,
        not_blank r.summary v.summarized,
        v.short,
        v.confident,
        (validate_evidence-All 0 r.evidence).1 v.evident,
        (error_told r.error).1 v.told,
      )

  -- A result passes the check exactly if it is as it is to be: named, of a known status, with a summary
  -- of at most 4096 bytes, a reason if it is degraded and an error if it failed, a confidence in range,
  -- evidence with sources and titles, and an error, if any, with a code or a message.
  pub validate_task_result-IsValid :
      {Any : Type 0} (r : TaskResult Any F) → (validate_task_result o (some r) ≡ none) ↔ IsValid r
  validate_task_result-IsValid r = (IsValid-of r, none_of r)
