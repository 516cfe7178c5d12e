-- ===== src/VersionIncrease.antt =====
-- domain/version-increase.ts: the copy of an incremental version. `ContainerConfig` is a parameter:
-- a copy keeps a configuration as it is, less its id. The records have the columns of prisma/schema.prisma;
-- a column that a copy sets to `undefined` is `none` there, and the labels of an image are kept as
-- their text.
pub mod Copies
use dyrectorio.Prelude.{
  ℕ, String, Bool, false, Option, none, some, List, [], ◌∷◌, ◌++◌, fold, if◌then◌else◌,
}
use dyrectorio.Deployment.{DeploymentStatus, VersionType}

-- A stored configuration: its id and all its other columns.
pub record StoredConfig (C : Type 0) : Type 0 where
  pub id : String
  pub columns : C

pub record Image (C : Type 0) : Type 0 where
  pub id : String
  pub created_at : ℕ
  pub created_by : String
  pub updated_at : ℕ
  pub updated_by : Option String
  pub name : String
  pub tag : Option String
  pub order : ℕ
  pub labels : Option String
  pub registry_id : String
  pub version_id : String
  pub config_id : String
  pub config : Option (StoredConfig C)

pub record CopiedImage (C : Type 0) : Type 0 where
  pub id : String
  pub original_id : String
  pub created_at : ℕ
  pub created_by : String
  pub updated_at : ℕ
  pub updated_by : Option String
  pub name : String
  pub tag : Option String
  pub order : ℕ
  pub labels : Option String
  pub registry_id : String
  pub version_id : String
  pub config_id : String
  pub config : Option C

pub record Instance (C : Type 0) : Type 0 where
  pub id : String
  pub deployment_id : String
  pub image_id : String
  pub config_id : String
  pub config : Option (StoredConfig C)

pub record CopiedInstance (C : Type 0) : Type 0 where
  pub original_image_id : String
  pub config : Option C

pub record Deployment (C : Type 0) : Type 0 where
  pub id : String
  pub created_at : ℕ
  pub created_by : String
  pub updated_at : ℕ
  pub updated_by : Option String
  pub note : Option String
  pub prefix : Option String
  pub status : DeploymentStatus
  pub tries : ℕ
  pub protected : Bool
  pub deployed_at : Option ℕ
  pub deployed_by : Option String
  pub version_id : String
  pub node_id : String
  pub config_id : String
  pub config : Option (StoredConfig C)
  pub instances : List (Instance C)

pub record CopiedDeployment (C : Type 0) : Type 0 where
  pub id : String
  pub created_at : Option ℕ
  pub created_by : Option String
  pub updated_at : Option ℕ
  pub updated_by : Option String
  pub note : Option String
  pub prefix : Option String
  pub status : DeploymentStatus
  pub tries : ℕ
  pub protected : Bool
  pub deployed_at : Option ℕ
  pub deployed_by : Option String
  pub version_id : String
  pub node_id : String
  pub config_id : String
  pub config : Option C
  pub instances : List (CopiedInstance C)

pub record Version (C : Type 0) : Type 0 where
  pub id : String
  pub created_at : ℕ
  pub created_by : String
  pub updated_at : ℕ
  pub updated_by : Option String
  pub name : String
  pub changelog : Option String
  pub is_default : Bool
  pub version_type : VersionType
  pub auto_copy_deployments : Bool
  pub project_id : String
  pub chain_id : Option String
  pub images : List (Image C)
  pub deployments : List (Deployment C)

pub record IncreasedVersion (C : Type 0) : Type 0 where
  pub name : String
  pub changelog : Option String
  pub is_default : Bool
  pub version_type : VersionType
  pub auto_copy_deployments : Bool
  pub updated_at : Option ℕ
  pub updated_by : Option String
  pub images : List (CopiedImage C)
  pub deployments : List (CopiedDeployment C)

-- `forEach(it => list.push(copy(it)))`
abbrev pub push_copies : {A B : Type 0} → (A → B) → List B → List A → List B
push_copies copy = fold λ copies it. copies ++ copy it ∷ []

module _ {C : Type 0} where
  abbrev pub copy_config : Option (StoredConfig C) → Option C
  copy_config none = none
  copy_config (some config) = some config.columns

  unfoldable pub copy_instance : Instance C → CopiedInstance C
  copy_instance inst = record {
    original_image_id = inst.image_id;
    config = copy_config inst.config;
  }

  unfoldable pub copy_deployment : Deployment C → CopiedDeployment C
  unfolding copy_instance
  copy_deployment d = record {
    id = d.id;
    created_at = none;
    created_by = none;
    updated_at = none;
    updated_by = none;
    note = d.note;
    prefix = d.prefix;
    status = DeploymentStatus.preparing;
    tries = 0;
    protected = d.protected;
    deployed_at = d.deployed_at;
    deployed_by = d.deployed_by;
    version_id = d.version_id;
    node_id = d.node_id;
    config_id = d.config_id;
    config = copy_config d.config;
    instances = push_copies copy_instance [] d.instances;
  }

  unfoldable pub copy_image : Image C → CopiedImage C
  copy_image image = record {
    id = image.id;
    original_id = image.id;
    created_at = image.created_at;
    created_by = image.created_by;
    updated_at = image.updated_at;
    updated_by = image.updated_by;
    name = image.name;
    tag = image.tag;
    order = image.order;
    labels = image.labels;
    registry_id = image.registry_id;
    version_id = image.version_id;
    config_id = image.config_id;
    config = copy_config image.config;
  }

  unfoldable pub increase_incremental_version :
      Version C → String → Option String → IncreasedVersion C
  unfolding copy_deployment copy_image
  increase_incremental_version parent name changelog = record {
    name = name;
    changelog = changelog;
    is_default = false;
    version_type = parent.version_type;
    auto_copy_deployments = parent.auto_copy_deployments;
    updated_at = none;
    updated_by = none;
    images = push_copies copy_image [] parent.images;
    deployments =
        if parent.auto_copy_deployments
        then push_copies copy_deployment [] parent.deployments
        else [];
  }
