-- ===== src/Service/Publish.antt =====
-- internal/definition/publish.go. `check` is `ExecutionSettings.check` and `same` is
-- `ExecutionSettings.Same`.
use garam_agent_operator.Prelude.{
  String, Bool, ◌||◌, ◌==◌, ◌!=◌, string_eq, ℕ_eq, ltb, if◌then◌else◌,
}
use garam_agent_operator.Exec.{Exec, pure, raise, lift, ◌>>=◌, ◌>>◌}
use garam_agent_operator.Definition.Errors.{Error, Result}
use garam_agent_operator.Repository.{Memory}
use garam_agent_operator.SecretRef.{Validation}
use garam_agent_operator.Definition.Types.{Profile, Template, PublishInput, Publication}
use garam_agent_operator.Definition.Equalities.{binding_eq}
use garam_agent_operator.Repository.Publishing
use garam_agent_operator.Service.Checks.{check_config}

module _ {S : Type 0} where
  unfoldable pub publish_profile :
      (check : S → Result (Unit {0})) → String → String → S → Exec (Memory S) (Profile S)
  publish_profile check org name settings = do
    lift (check settings)
    Publishing.publish_profile org name settings

  unfoldable pub publish_profile_version :
      (check : S → Result (Unit {0})) (same : S → S → Bool)
      → String
      → Profile S
      → Exec (Memory S) (Profile S × Bool)
  publish_profile_version check same org p =
      if org == "" || p.name == ""
      then raise Error.invalid_profile
      else if ltb p.version 1
      then raise Error.invalid_profile
      else (do lift (check p.settings); Publishing.publish_profile_version same org p)

  unfoldable pub publish : Validation → PublishInput → Exec (Memory S) (Publication × Bool)
  publish v input = do
    let t = input.template
    lift (check_config v t.config)
    Publishing.get_profile input.request.organization t.profile
    (stored, created) ←
        Publishing.publish_once
          (record {
            key = input.request;
            binding = input.binding;
            template = record { name = t.name; version = 0 };
          })
          t
    if stored.binding != input.binding || stored.template.name != t.name
        then raise Error.request_reused
        else pure (stored, created)

  unfoldable pub publish_template : Validation → String → Template → Exec (Memory S) Template
  publish_template v org t = do
    lift (check_config v t.config)
    Publishing.get_profile org t.profile
    Publishing.publish_template org t
