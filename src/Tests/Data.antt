-- ===== src/Tests/Data.antt =====
-- Configurations that the tests share.
use dyrectorio.Prelude.{ℕ, String, true, none, some, List, [], ◌∷◌}
use dyrectorio.Container.{
  ContainerConfigData, ContainerConfigDataWithId, ConcreteContainerConfigData, ContainerPortRange,
  UniqueSecretKey, UniqueSecretKeyValue, StorageProperties, empty_body, empty_config,
  empty_concrete,
}

abbrev pub named : String → ContainerConfigData
named name = record empty_config {
  body = record empty_body { common = record empty_body.common { name = some name } };
}

-- Two bundles that differ in their name and share the user.
abbrev pub api_bundle : ContainerConfigDataWithId
api_bundle = record {
  id = "bundle-1";
  config = record empty_config {
    body = record empty_body {
      common = record empty_body.common {
        name = some "api";
        environment = some (record { id = "1"; key = "MODE"; value = "dev" } ∷ []);
      };
    };
  };
}

abbrev pub web_bundle : ContainerConfigDataWithId
web_bundle = record {
  id = "bundle-2";
  config = record empty_config {
    body = record empty_body {
      common = record empty_body.common {
        name = some "web";
        environment = some (record { id = "2"; key = "MODE"; value = "prod" } ∷ []);
      };
    };
  };
}

abbrev pub two_bundles : List ContainerConfigDataWithId
two_bundles = api_bundle ∷ web_bundle ∷ []

abbrev pub concrete_named : String → ConcreteContainerConfigData
concrete_named name = record empty_concrete {
  body = record empty_body { common = record empty_body.common { name = some name } };
}

-- A range that is the same inside and outside.
abbrev pub ports_from_to : String → ℕ → ℕ → ContainerPortRange
ports_from_to id from to = record {
  id = id;
  internal = record { from = from; to = to };
  external = record { from = from; to = to };
}

abbrev pub stored_at : String → StorageProperties
stored_at id = record { storage_set = some true; storage_id = some id; storage_config = none }

abbrev pub with_storage : StorageProperties → ContainerConfigData
with_storage s = record empty_config { body = record empty_body { storage = s } }

abbrev pub token_key : UniqueSecretKey
token_key = record { object = 1; id = "s1"; key = "TOKEN"; required = true }

-- A secret under the public key "old"
abbrev pub old_token : UniqueSecretKeyValue
old_token = record {
  id = "s1";
  key = "TOKEN";
  value = "cipher";
  required = true;
  encrypted = true;
  public_key = some "old";
}
