-- ===== src/StartDeployment.antt =====
-- domain/start-deployment.ts, with nameOfInstance of domain/container.ts and
-- registryImageNameToContainerName of domain/image.ts: the configurations that are deployed, and
-- the checks on their secrets.
pub mod Secrets
pub mod Precedence
pub mod Storage
use Prim.Native.Char.{code}
use Prim.Native.String
use dyrectorio.Prelude.{
  String, Bool, true, false, not, ◌&&◌, ◌||◌, Option, none, some, List, [], ◌∷◌, map, filter,
  contains, nat_eq, string_eq, ◌==◌, if◌then◌else◌, ◌or_else◌, option_eq, get_or,
}
use dyrectorio.Container.{UniqueSecretKeyValue, ContainerConfigData, ConcreteContainerConfigData}
use dyrectorio.Merge.{merge_configs_with_concrete_config}
use dyrectorio.Merge.Instance.{merge_instance_config_with_deployment_config}
use dyrectorio.Deployment.{DeploymentStatus, VersionType, is_rolling}

pub record MissingSecrets : Type 0 where
  pub config_id : String
  pub secret_keys : List String

pub record InvalidSecrets : Type 0 where
  pub config_id : String
  pub invalid : List String
  pub secrets : List UniqueSecretKeyValue

-- `it.required || (it.value && it.value.length > 0)`
abbrev pub is_needed : UniqueSecretKeyValue → Bool
is_needed it = it.required || not (it.value == "")

abbrev pub missing_secrets : List UniqueSecretKeyValue → List UniqueSecretKeyValue
missing_secrets secrets = filter (λ it. not it.encrypted) (filter is_needed secrets)

abbrev pub missing_or_none : String → List UniqueSecretKeyValue → Option MissingSecrets
missing_or_none config_id [] = none
missing_or_none config_id (s ∷ secrets) =
    some (record { config_id = config_id; secret_keys = map (λ it. it.key) (s ∷ secrets) })

abbrev pub missing_secrets_of_list :
    String → Option (List UniqueSecretKeyValue) → Option MissingSecrets
missing_secrets_of_list config_id none = none
missing_secrets_of_list config_id (some secrets) =
    missing_or_none config_id (missing_secrets secrets)

unfoldable pub missing_secrets_of :
    String → Option ConcreteContainerConfigData → Option MissingSecrets
missing_secrets_of config_id none = none
missing_secrets_of config_id (some config) = missing_secrets_of_list config_id config.secrets

abbrev pub is_invalid : String → UniqueSecretKeyValue → Bool
is_invalid public_key it = not (it.public_key == some public_key)

abbrev pub invalid_ids : String → List UniqueSecretKeyValue → List String
invalid_ids public_key secrets = map (λ it. it.id) (filter (is_invalid public_key) secrets)

-- A secret that has to be entered again, under the key of the agent.
abbrev pub reset_secret : String → UniqueSecretKeyValue → UniqueSecretKeyValue
reset_secret public_key secret = record secret {
  value = "";
  encrypted = false;
  public_key = some public_key;
}

abbrev pub reset_if_invalid : List String → String → UniqueSecretKeyValue → UniqueSecretKeyValue
reset_if_invalid invalid public_key secret =
    if not (contains invalid secret.id) then secret else reset_secret public_key secret

abbrev pub invalid_or_none :
    String → String → List UniqueSecretKeyValue → List String → Option InvalidSecrets
invalid_or_none config_id public_key secrets [] = none
invalid_or_none config_id public_key secrets (i ∷ invalid) = some (record {
  config_id = config_id;
  invalid = i ∷ invalid;
  secrets = map (reset_if_invalid (i ∷ invalid) public_key) secrets;
})

abbrev pub collect_invalid_secrets_of_list :
    String → Option (List UniqueSecretKeyValue) → String → Option InvalidSecrets
collect_invalid_secrets_of_list config_id none public_key = none
collect_invalid_secrets_of_list config_id (some secrets) public_key =
    invalid_or_none config_id public_key secrets (invalid_ids public_key secrets)

unfoldable pub collect_invalid_secrets :
    String → Option ConcreteContainerConfigData → String → Option InvalidSecrets
collect_invalid_secrets config_id none public_key = none
collect_invalid_secrets config_id (some config) public_key =
    collect_invalid_secrets_of_list config_id config.secrets public_key

pub record DeployableDeployment : Type 0 where
  pub version_type : VersionType
  pub status : DeploymentStatus
  pub config : ConcreteContainerConfigData
  pub config_bundles : List ContainerConfigData

pub record DeployableInstance : Type 0 where
  pub image_name : String
  pub image_config : ContainerConfigData
  pub config : ConcreteContainerConfigData

abbrev pub was_deployed : DeploymentStatus → Bool
was_deployed DeploymentStatus.successful = true
was_deployed DeploymentStatus.obsolete = true
was_deployed _ = false

-- A deployment of an incremental version that is deployed again uses its concrete configs only.
abbrev pub is_redeployment : DeployableDeployment → Bool
is_redeployment deployment =
    not (is_rolling deployment.version_type) && was_deployed deployment.status

unfoldable pub deployment_config_of : DeployableDeployment → ConcreteContainerConfigData
deployment_config_of deployment =
    if is_redeployment deployment
    then deployment.config
    else merge_configs_with_concrete_config (map some deployment.config_bundles)
        (some deployment.config)

-- `name.split('/').pop()`: what stands behind the last slash, or the whole name.
abbrev pub after_last_slash : String → String → String
after_last_slash part String.[] = part
after_last_slash part (String.◌∷◌ c rest) =
    after_last_slash (if code c == b'/' then "" else String.◌++◌ part (String.◌∷◌ c String.[])) rest

unfoldable pub registry_image_name_to_container_name : String → String
registry_image_name_to_container_name name = after_last_slash "" name

unfoldable pub name_of_instance : DeployableInstance → String
unfolding registry_image_name_to_container_name
name_of_instance inst =
    get_or (inst.config.body.common.name or_else inst.image_config.body.common.name)
      (registry_image_name_to_container_name inst.image_name)

-- `if (!result.name)`: a missing name, or an empty one.
abbrev pub is_unnamed : Option String → Bool
is_unnamed none = true
is_unnamed (some name) = name == ""

abbrev pub with_name : String → ConcreteContainerConfigData → ConcreteContainerConfigData
with_name name c = record c {
  body = record c.body { common = record c.body.common { name = some name } };
}

unfoldable pub set_default_name :
    DeployableInstance → ConcreteContainerConfigData → ConcreteContainerConfigData
unfolding name_of_instance
set_default_name inst result =
    if is_unnamed result.body.common.name then with_name (name_of_instance inst) result else result

unfoldable pub instance_config_of :
    DeployableDeployment
    → ConcreteContainerConfigData
    → DeployableInstance
    → ConcreteContainerConfigData
instance_config_of deployment deployment_config inst =
    if is_redeployment deployment
    then inst.config
    else set_default_name inst (
        merge_instance_config_with_deployment_config
          (merge_configs_with_concrete_config (some inst.image_config ∷ [])
            (some deployment_config))
          inst.config)
