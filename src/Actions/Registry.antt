-- ===== src/Actions/Registry.antt =====
-- The registry of internal/ai/actionexecutor/executor.go. An executor is a function; `execute` answers with
-- the map of parameters too, since it writes the defaults into the caller's map.
use ops_captain.Base.{
  ℕ, ◌⊎◌, inl, inr, String, Bool, true, false, not, ◌&&◌, Option, none, some, List, [], ◌∷◌, str_eq,
  if◌then◌else◌, keep,
}
use ops_captain.Base.Dict.{Dict, lookup, insert, values}

pub record ActionParam : Type 0 where
  pub name : String
  pub kind : String
  pub required : Bool
  pub description : String
  pub default_value : String

pub record ActionDefinition : Type 0 where
  pub id : String
  pub name : String
  pub description : String
  pub category : String
  pub risk_level : String
  pub parameters : List ActionParam
  pub executor : String
  pub config : Dict String

pub record ActionResult : Type 0 where
  pub success : Bool
  pub action_id : String
  pub action_name : String
  pub output : String
  pub error : String
  pub executed_at : ℕ
  pub duration : ℕ
  pub metadata : Dict String

-- What an executor answers: an error, as its text, a result, or a nil result without an error.
pub data Answer : Type 0 where
  failed : String → Answer
  answered : ActionResult → Answer
  nothing : Answer

abbrev pub Executor : Type 0
Executor = ActionDefinition → Dict String → Answer

pub record Registry : Type 0 where
  pub actions : Dict ActionDefinition
  pub executors : Dict Executor

pub data ExecuteError : Type 0 where
  action_not_found : ExecuteError
  parameter_missing : String → ExecuteError
  executor_not_registered : ExecuteError

unfoldable pub new_registry : Registry
new_registry = record { actions = []; executors = [] }

unfoldable pub register : Registry → ActionDefinition → Registry
register r action = record r { actions = insert action.id action r.actions }

unfoldable pub register_executor : Registry → String → Executor → Registry
register_executor r name exec = record r { executors = insert name exec r.executors }

unfoldable pub get : Registry → String → Option ActionDefinition
get r id = lookup id r.actions

unfoldable pub list_by_category : Registry → String → List ActionDefinition
list_by_category r category = keep (λ a. str_eq a.category category) (values r.actions)

unfoldable pub list_all : Registry → List ActionDefinition
list_all r = values r.actions

module _ (trim_space : String → String) where
  -- `v, ok := params[p.Name]; !ok || strings.TrimSpace(v) == ""`
  unfoldable pub is_missing : Dict String → String → Bool
  is_missing params name = elim (lookup name params) [
    | none ↦ true
    | some v ↦ str_eq (trim_space v) ""
  ]

  -- The loop over the required parameters.
  unfoldable pub require_all : List ActionParam → Dict String → Dict String × Option ExecuteError
  unfolding is_missing
  require_all [] params = (params, none)
  require_all (p ∷ ps) params =
      let defaulted = require_all ps (insert p.name p.default_value params) in
      let given = require_all ps params in
      if p.required && is_missing params p.name
      then if str_eq p.default_value ""
        then (params, some (parameter_missing p.name))
        else defaulted
      else given

  unfoldable pub apply_defaults : List ActionParam → Dict String → Dict String
  unfolding is_missing
  apply_defaults [] params = params
  apply_defaults (p ∷ ps) params = apply_defaults ps (
      if is_missing params p.name && not (str_eq p.default_value "")
      then insert p.name p.default_value params
      else params)

  -- Both loops: the parameters for the executor, or the error.
  unfoldable pub prepare : ActionDefinition → Dict String → Dict String × Option ExecuteError
  unfolding require_all apply_defaults
  prepare action params =
      let checked = require_all action.parameters params in
      elim checked.1 [
        | some e ↦ (checked.0, some e)
        | none ↦ (apply_defaults action.parameters checked.0, none)
      ]

  -- The start and the duration are in milliseconds. The answer is none where the code writes to the nil
  -- result and panics.
  unfoldable pub conclude :
      ActionDefinition → (action_id : String) → (start duration : ℕ) → Answer → Option ActionResult
  conclude action action_id start duration (failed e) = some (record {
    success = false;
    action_id = action_id;
    action_name = action.name;
    output = "";
    error = e;
    executed_at = start;
    duration = duration;
    metadata = [];
  })
  conclude action action_id start duration (answered result) = some (record result {
    action_id = action_id;
    action_name = action.name;
    executed_at = start;
    duration = duration;
  })
  conclude action action_id start duration nothing = none

  -- The result is none where the code panics.
  unfoldable pub execute :
      Registry
      → (action_id : String) → Dict String
      → (start duration : ℕ) → Dict String × (ExecuteError ⊎ Option ActionResult)
  unfolding prepare conclude
  execute r action_id params start duration = elim (lookup action_id r.actions) [
    | none ↦ (params, inl action_not_found)
    | some action ↦
        let prepared = prepare action params in
        elim prepared.1 [
          | some e ↦ (prepared.0, inl e)
          | none ↦ elim (lookup action.executor r.executors) [
            | none ↦ (prepared.0, inl executor_not_registered)
            | some exec ↦ (
              prepared.0,
              inr (conclude action action_id start duration (exec action prepared.0)),
            )
          ]
        ]
  ]
