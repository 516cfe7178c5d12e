-- ===== src/Tests/StartDeployment.antt =====
-- The configurations of a started deployment, its secrets and those of its neighbours.
use dyrectorio.Prelude.{false, some, List, [], ◌∷◌, ◌≡◌, refl, is_some, string_eq, String, ℕ}
use dyrectorio.Container.{
  ConcreteContainerConfigData, empty_config, empty_concrete, empty_body, CommonConfig,
}
use dyrectorio.Merge.{merge_storage, squash_configs, merge_configs, no_storage}
use dyrectorio.Deployment.{DeploymentStatus, incremental}
use dyrectorio.StartDeployment.{
  DeployableDeployment, DeployableInstance, missing_secrets_of, collect_invalid_secrets,
  registry_image_name_to_container_name,
}
use dyrectorio.StartDeployment.Secrets.{
  missing_secrets_of_iff, collect_invalid_secrets-Repairs, Repairs,
}
use dyrectorio.StartDeployment.Precedence.{deployed, instance_config_of-Precedence}
use dyrectorio.StartDeployment.Storage.{instance_config_of-storage}
use dyrectorio.NeighborSecrets.{
  SecretDeployment, merge_prefix_neighbor_secrets, candidates, sort_newest, offer_all, offer,
}
use dyrectorio.NeighborSecrets.Recency.{
  IsMostRecent, value_of, merge_prefix_neighbor_secrets-IsMostRecent,
}
use dyrectorio.Tests.Data.{stored_at, old_token}

abbrev with_secret : ConcreteContainerConfigData
with_secret = record empty_concrete { secrets = some (old_token ∷ []) }

missing_secrets_of_iff_test : is_some (missing_secrets_of "config-1" (some with_secret)) ≡ false
missing_secrets_of_iff_test = missing_secrets_of_iff "config-1" with_secret

collect_invalid_secrets-Repairs_example :
    Repairs "new" (old_token ∷ []) (collect_invalid_secrets "config-1" (some with_secret) "new")
collect_invalid_secrets-Repairs_example =
    collect_invalid_secrets-Repairs "new" "config-1" with_secret

abbrev exposed : String → CommonConfig
exposed expose = record empty_body.common { expose = some expose }

abbrev fresh_deployment : DeployableDeployment
fresh_deployment = record {
  version_type = incremental;
  status = DeploymentStatus.preparing;
  config = empty_concrete;
  config_bundles =
      record empty_config { body = record empty_body { common = exposed "bundle" } } ∷ [];
}

-- An instance whose image has a storage and is exposed.
abbrev stored_instance : DeployableInstance
stored_instance = record {
  image_name = "library/nginx";
  image_config = record empty_config {
    body = record empty_body { common = exposed "image"; storage = stored_at "s3" };
  };
  config = empty_concrete;
}

instance_config_of-Precedence_example :
    (deployed fresh_deployment stored_instance).body.common.expose ≡ some "bundle"
instance_config_of-Precedence_example =
    (instance_config_of-Precedence fresh_deployment stored_instance refl).1

instance_config_of-storage_example :
    (deployed fresh_deployment stored_instance).body.storage ≡ no_storage
unfolding merge_storage squash_configs merge_configs
instance_config_of-storage_example =
    instance_config_of-storage fresh_deployment stored_instance refl

container_name_tests :
    (registry_image_name_to_container_name "library/nginx" ≡ "nginx")
    × (registry_image_name_to_container_name "nginx" ≡ "nginx")
    × (registry_image_name_to_container_name "a/b/" ≡ "")
unfolding registry_image_name_to_container_name
container_name_tests = (refl, refl, refl)

abbrev token_at : ℕ → String → SecretDeployment
token_at time value = record {
  created_at = time;
  deployed_at = time;
  secrets = some (record old_token { value = value } ∷ []);
}

abbrev neighbours : List SecretDeployment
neighbours = token_at 5 "first" ∷ token_at 9 "second" ∷ []

merge_prefix_neighbor_secrets-IsMostRecent_example :
    IsMostRecent neighbours "old" "TOKEN"
      (value_of "TOKEN" (merge_prefix_neighbor_secrets neighbours "old"))
merge_prefix_neighbor_secrets-IsMostRecent_example =
    merge_prefix_neighbor_secrets-IsMostRecent neighbours "old" "TOKEN"

-- The later deployment's value is the one that is kept.
neighbours_test : merge_prefix_neighbor_secrets neighbours "old" ≡ ("TOKEN", "second") ∷ []
unfolding merge_prefix_neighbor_secrets candidates sort_newest offer_all offer
neighbours_test = refl
