-- ===== src/Tests/Merge.antt =====
-- The merges of configurations.
use dyrectorio.Prelude.{true, none, some, [], ◌∷◌, items, string_eq, nat_eq, ◌≡◌, refl, String}
use dyrectorio.Container.{
  ContainerConfigData, ConcreteContainerConfigData, UniqueKey, empty_config, empty_concrete,
  empty_body,
}
use dyrectorio.Merge.{squash_configs, merge_secrets, valueless, no_storage}
use dyrectorio.Merge.Ranges.{all_apart}
use dyrectorio.Merge.Secrets.{secrets_of, secrets_of-merge_secrets}
use dyrectorio.Merge.Squash.{squash_configs-common, squash_configs-platform}
use dyrectorio.Merge.Storage.{squash_configs-storage}
use dyrectorio.Merge.Override.{share_port, merge_instance-port_ranges_apart, merged}
use dyrectorio.Tests.Data.{named, ports_from_to, stored_at, with_storage, token_key, old_token}

squash_configs-common_example :
    (squash_configs (named "api" ∷ named "web" ∷ empty_config ∷ [])).body.common.name ≡ some "web"
squash_configs-common_example =
    (squash_configs-common (named "api" ∷ named "web" ∷ empty_config ∷ [])).0

abbrev restarting : ContainerConfigData
restarting = record empty_config {
  body = record empty_body { dagent = record empty_body.dagent { restart_policy = some "always" } };
}

squash_configs-platform_example :
    (squash_configs (restarting ∷ named "web" ∷ [])).body.dagent.restart_policy ≡ some "always"
squash_configs-platform_example = (squash_configs-platform (restarting ∷ named "web" ∷ [])).1

squash_configs-storage_example :
    (squash_configs
      (with_storage (stored_at "s3") ∷ with_storage no_storage ∷ empty_config ∷ [])).body.storage
    ≡ no_storage
squash_configs-storage_example =
    squash_configs-storage (with_storage (stored_at "s3"))
      (with_storage no_storage ∷ empty_config ∷ [])

secrets_of-merge_secrets_example :
    secrets_of "s1" (merge_secrets (some (old_token ∷ [])) (some (token_key ∷ []))) ≡ old_token ∷ []
secrets_of-merge_secrets_example =
    secrets_of-merge_secrets "s1" (some (old_token ∷ [])) (some (token_key ∷ []))

secrets_of-weak_test :
    secrets_of "s1" (merge_secrets none (some (token_key ∷ []))) ≡ valueless token_key ∷ []
secrets_of-weak_test = secrets_of-merge_secrets "s1" none (some (token_key ∷ []))

abbrev header : String → UniqueKey
header id = record { id = id; key = "X-Id" }

-- The header and the port ranges of a side.
abbrev with_header : String → ConcreteContainerConfigData
with_header id = record empty_concrete {
  body = record empty_body {
    common = record empty_body.common { port_ranges = some (ports_from_to id 80 90 ∷ []) };
    crane = record empty_body.crane { custom_headers = some (header id ∷ []) };
  };
}

merge_instance-port_ranges_apart_example :
    all_apart
      (share_port 85)
      (items (merged (with_header "deployment") (with_header "instance")).body.common.port_ranges)
    ≡ true
merge_instance-port_ranges_apart_example =
    merge_instance-port_ranges_apart 85 (with_header "deployment") (with_header "instance") refl
      refl
