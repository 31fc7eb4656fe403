-- ===== src/Actions/Scenarios.antt =====
-- Runs of internal/ai/actionexecutor/executor.go on one action with a default.
use ops_captain.Base.{◌≡◌, refl, String, true, some, [], ◌∷◌, All}
use ops_captain.Base.Dict.{Dict, lookup}
use ops_captain.Actions.Registry.{
  ActionParam, ActionDefinition, Executor, Registry, failed, parameter_missing, prepare, is_missing,
}
use ops_captain.Actions.Prepared.{IsSatisfied, Keeps, prepare-IsSatisfied}

abbrev param : String → String → ActionParam
param name default_value = record {
  name = name;
  kind = "string";
  required = true;
  description = "";
  default_value = default_value;
}

abbrev restart : ActionDefinition
restart = record {
  id = "restart";
  name = "Restart";
  description = "";
  category = "restart";
  risk_level = "high";
  parameters = param "service" "" ∷ param "grace" "30" ∷ [];
  executor = "http";
  config = [];
}

abbrev fail : Executor
fail action params = failed "refused"

abbrev registry : Registry
registry = record { actions = ("restart", restart) ∷ []; executors = ("http", fail) ∷ [] }

abbrev same : String → String
same t = t

prepare-IsSatisfied_example :
    All (IsSatisfied same (prepare same restart (("service", "api") ∷ [])).0) restart.parameters
    × Keeps same (("service", "api") ∷ []) (prepare same restart (("service", "api") ∷ [])).0
unfolding prepare is_missing lookup
prepare-IsSatisfied_example =
    prepare-IsSatisfied same restart (("service", "api") ∷ []) (λ full. full, (λ full. full, tt))
      refl

missing : (prepare same restart []).1 ≡ some (parameter_missing "service")
unfolding prepare is_missing lookup
missing = refl
