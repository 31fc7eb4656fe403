-- ===== src/Actions/Prepared.antt =====
-- What an executor of internal/ai/actionexecutor/executor.go is given.
use ops_captain.Base.{
  ℕ, ◌≡◌, ◌≢◌, sym, subst, inl, inr, String, true, false, not, ◌&&◌, Option, none, some, List, [],
  ◌∷◌, arith, str_eq, All, All-map, Bool-cases, Option-cases, eq_iff,
}
use ops_captain.Base.Dict.{Dict, lookup, insert, lookup-insert, lookup-insert_self}
use ops_captain.Actions.Registry.{
  ActionParam, ActionDefinition, ActionResult, Answer, failed, answered, nothing, Registry,
  ExecuteError, is_missing, require_all, apply_defaults, prepare,
}

module _ (trim_space : String → String) where
  -- A parameter with a value that is not blank.
  abbrev pub IsGiven : Dict String → String → Type 0
  IsGiven params name = (v : String) × (lookup name params ≡ some v) × (trim_space v ≢ "")

  -- Every value that is not blank is kept.
  abbrev pub Keeps : Dict String → Dict String → Type 0
  Keeps before after =
      (k v : String) → lookup k before ≡ some v → trim_space v ≢ "" → lookup k after ≡ some v

  -- Entering a value under a missing name.
  insert-Keeps :
      (params : Dict String) (name v : String)
      → is_missing trim_space params name ≡ true
      → Keeps params (insert name v params)
  unfolding is_missing
  insert-Keeps params name v missing k w held full = ground (
    arith,
    held,
    missing,
    lookup-insert name k v params,
    eq_iff name k,
    eq_iff (trim_space w) "",
    full,
  )

  require_all-Keeps :
      (ps : List ActionParam) (params : Dict String)
      → Keeps params (require_all trim_space ps params).0
  unfolding require_all
  require_all-Keeps [] params k v held full = held
  require_all-Keeps (p ∷ ps) params k v held full =
      elim (Bool-cases (p.required && is_missing trim_space params p.name)) [
        | inr e ↦ ground (arith, e, require_all-Keeps ps params k v held full)
        | inl e ↦ elim (Bool-cases (str_eq p.default_value "")) [
          | inl d ↦ ground (arith, e, d, held)
          | inr d ↦
              let missing : is_missing trim_space params p.name ≡ true = ground (arith, e) in
              let kept = insert-Keeps params p.name p.default_value missing k v held full in
              ground (
                arith,
                e,
                d,
                require_all-Keeps ps (insert p.name p.default_value params) k v kept full,
              )
        ]
      ]

  apply_defaults-Keeps :
      (ps : List ActionParam) (params : Dict String)
      → Keeps params (apply_defaults trim_space ps params)
  unfolding apply_defaults
  apply_defaults-Keeps [] params k v held full = held
  apply_defaults-Keeps (p ∷ ps) params k v held full =
      elim (Bool-cases (is_missing trim_space params p.name && not (str_eq p.default_value ""))) [
        | inr e ↦ ground (arith, e, apply_defaults-Keeps ps params k v held full)
        | inl e ↦
            let missing : is_missing trim_space params p.name ≡ true = ground (arith, e) in
            let kept = insert-Keeps params p.name p.default_value missing k v held full in
            ground (
              arith,
              e,
              apply_defaults-Keeps ps (insert p.name p.default_value params) k v kept full,
            )
      ]

  -- A default is empty or not blank.
  abbrev pub IsDefault : ActionParam → Type 0
  IsDefault p = p.default_value ≢ "" → trim_space p.default_value ≢ ""

  -- A required parameter is given.
  abbrev pub IsSatisfied : Dict String → ActionParam → Type 0
  IsSatisfied params p = p.required ≡ true → IsGiven params p.name

  given :
      (params : Dict String) (name : String)
      → is_missing trim_space params name ≡ false
      → IsGiven params name
  unfolding is_missing
  given params name h = elim (Option-cases (lookup name params)) [
    | inl e ↦ absurd (ground (arith, h, e))
    | inr (v, e) ↦ (v, e, λ blank. ground (arith, h, e, blank, eq_iff (trim_space v) ""))
  ]

  require_all-IsSatisfied :
      (ps : List ActionParam) (params : Dict String)
      → All IsDefault ps
      → (require_all trim_space ps params).1 ≡ none
      → All (IsSatisfied (require_all trim_space ps params).0) ps
  unfolding require_all
  require_all-IsSatisfied [] params ok h = tt
  require_all-IsSatisfied (p ∷ ps) params ok h =
      elim (Bool-cases (p.required && is_missing trim_space params p.name)) [
        | inr e ↦
            let same : require_all trim_space (p ∷ ps) params ≡ require_all trim_space ps params =
              ground (arith, e) in
            subst (λ (x : Dict String × Option ExecuteError). All (IsSatisfied x.0) (p ∷ ps))
              (sym same)
              (
                λ required.
                    let (v, held, full) = given params p.name (ground (arith, e, required)) in
                    (v, require_all-Keeps ps params p.name v held full, full),
                require_all-IsSatisfied ps params ok.1 (ground (arith, h, e)),
              )
        | inl e ↦ elim (Bool-cases (str_eq p.default_value "")) [
          | inl d ↦ absurd (ground (arith, h, e, d))
          | inr d ↦
              let entered = insert p.name p.default_value params in
              let same : require_all trim_space (p ∷ ps) params
                  ≡ require_all trim_space ps entered =
                ground (arith, e, d) in
              let full = ok.0 (λ empty. ground (arith, d, empty, eq_iff p.default_value "")) in
              subst (λ (x : Dict String × Option ExecuteError). All (IsSatisfied x.0) (p ∷ ps))
                (sym same)
                (
                  λ required. (
                    p.default_value,
                    require_all-Keeps ps entered p.name p.default_value
                        (lookup-insert_self p.name p.default_value params) full,
                    full,
                  ),
                  require_all-IsSatisfied ps entered ok.1 (ground (arith, h, e, d)),
                )
        ]
      ]

  IsSatisfied-later :
      (before after : Dict String) (ps : List ActionParam)
      → Keeps before after
      → All (IsSatisfied before) ps
      → All (IsSatisfied after) ps
  IsSatisfied-later before after ps keeps all =
      All-map (IsSatisfied before) (IsSatisfied after) ps
        (λ p s required. let (v, held, full) = s required in (v, keeps p.name v held full, full))
        all

  -- What the two loops pass on: every required parameter has a value that is not blank, if no default
  -- of the action is blank without being empty; and every value that was given and is not blank is
  -- kept.
  pub prepare-IsSatisfied :
      (action : ActionDefinition) (params : Dict String)
      → All IsDefault action.parameters
      → (prepare trim_space action params).1 ≡ none
      → All (IsSatisfied (prepare trim_space action params).0) action.parameters
        × Keeps params (prepare trim_space action params).0
  unfolding prepare
  prepare-IsSatisfied action params ok h =
      let ps = action.parameters in
      let checked = require_all trim_space ps params in
      elim (Option-cases checked.1) [
        | inr (x, e) ↦ absurd (ground (arith, h, e))
        | inl e ↦
            let final = apply_defaults trim_space ps checked.0 in
            let same : prepare trim_space action params ≡ (final, none) = ground (arith, e) in
            rw same (
              IsSatisfied-later checked.0 final ps (apply_defaults-Keeps ps checked.0)
                  (require_all-IsSatisfied ps params ok e),
              λ k v held full.
                  apply_defaults-Keeps ps checked.0 k v (require_all-Keeps ps params k v held full)
                    full,
            )
      ]

  -- What `Execute` makes of the executor's answer, or that it panics.
  abbrev pub Concludes :
      ActionDefinition → (id : String) (start duration : ℕ) → Answer → Option ActionResult → Type 0
  Concludes action id start duration (failed e) result =
      (x : ActionResult) × (result ≡ some x)
      × (x.success ≡ false)
      × (x.action_id ≡ id)
      × (x.action_name ≡ action.name)
      × (x.output ≡ "")
      × (x.error ≡ e)
      × (x.executed_at ≡ start)
      × (x.duration ≡ duration)
      × (x.metadata ≡ [])
  Concludes action id start duration (answered y) result =
      (x : ActionResult) × (result ≡ some x)
      × (x.success ≡ y.success)
      × (x.action_id ≡ id)
      × (x.action_name ≡ action.name)
      × (x.output ≡ y.output)
      × (x.error ≡ y.error)
      × (x.executed_at ≡ start)
      × (x.duration ≡ duration)
      × (x.metadata ≡ y.metadata)
  Concludes action id start duration nothing result = result ≡ none
