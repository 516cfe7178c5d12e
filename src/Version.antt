-- ===== src/Version.antt =====
-- domain/version.ts: when a version can be increased, changed and deleted.
pub mod Policy
use dyrectorio.Prelude.{
  String, Bool, true, false, not, ◌&&◌, Option, none, some, List, length, filter, ltb,
  if◌then◌else◌,
}
use dyrectorio.Deployment.{DeploymentStatus, VersionType, is_rolling, deployment_is_mutable}

pub data ProjectType : Type 0 where
  versionless versioned : ProjectType

-- `VersionDeletabilityCheckDao`, which has the fields of the other two.
pub record VersionDao : Type 0 where
  pub id : String
  pub version_type : VersionType
  pub children : List String
  pub deployments : List DeploymentStatus
  pub project_type : ProjectType

unfoldable pub version_has_immutable_deployments : VersionDao → Bool
unfolding deployment_is_mutable
version_has_immutable_deployments version = ltb 0 (
    length (filter (λ it. not (deployment_is_mutable it version.version_type)) version.deployments))

unfoldable pub version_is_increasable : VersionDao → Bool
version_is_increasable version =
    not (is_rolling version.version_type) && ltb (length version.children) 1

unfoldable pub version_is_mutable : VersionDao → Bool
unfolding version_has_immutable_deployments version_is_increasable
version_is_mutable version =
    if is_rolling version.version_type
    then true
    else not (version_has_immutable_deployments version) && version_is_increasable version

abbrev pub is_versioned : ProjectType → Bool
is_versioned versioned = true
is_versioned versionless = false

unfoldable pub version_is_deletable : VersionDao → Bool
unfolding version_has_immutable_deployments version_is_increasable
version_is_deletable version =
    if version_has_immutable_deployments version
    then false
    else if is_rolling version.version_type
    then is_versioned version.project_type
    else version_is_increasable version

pub data MutabilityCheck : Type 0 where
  passed missing_version : MutabilityCheck
  immutable_version : String → MutabilityCheck

-- The two errors that `checkVersionMutability` throws, as values.
unfoldable pub check_version_mutability : Option VersionDao → MutabilityCheck
unfolding version_is_mutable
check_version_mutability none = missing_version
check_version_mutability (some version) =
    if version_is_mutable version then passed else immutable_version version.id
