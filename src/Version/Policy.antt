-- ===== src/Version/Policy.antt =====
-- When a version can be changed and deleted (domain/version.ts).
use dyrectorio.Prelude.{
  Bool, true, false, not, ◌&&◌, ◌||◌, List, [], ◌∷◌, length, filter, all, ltb, if◌then◌else◌, ◌≡◌,
  refl, arith,
}
use dyrectorio.Deployment.{
  DeploymentStatus, VersionType, incremental, rolling, is_rolling, deployment_is_mutable,
}
use dyrectorio.Version.{VersionDao, is_versioned, version_is_mutable, version_is_deletable}

-- The statuses of the deployments that let an incremental version, and a rolling one, be deleted.
abbrev pub is_unfinished : DeploymentStatus → Bool
is_unfinished DeploymentStatus.preparing = true
is_unfinished DeploymentStatus.failed = true
is_unfinished _ = false

abbrev pub is_replaceable : DeploymentStatus → Bool
is_replaceable DeploymentStatus.successful = true
is_replaceable s = is_unfinished s

abbrev pub is_childless : VersionDao → Bool
is_childless version = ltb (length version.children) 1

not_immutable :
    (t : VersionType) (ds : List DeploymentStatus)
    → not (ltb 0 (length (filter (λ it. not (deployment_is_mutable it t)) ds)))
      ≡ all (λ it. if is_rolling t then is_replaceable it else is_unfinished it) ds
unfolding deployment_is_mutable
not_immutable t [] = refl
not_immutable incremental (DeploymentStatus.preparing ∷ ds) = not_immutable incremental ds
not_immutable incremental (DeploymentStatus.failed ∷ ds) = not_immutable incremental ds
not_immutable incremental (_ ∷ ds) = ground arith
not_immutable rolling (DeploymentStatus.preparing ∷ ds) = not_immutable rolling ds
not_immutable rolling (DeploymentStatus.failed ∷ ds) = not_immutable rolling ds
not_immutable rolling (DeploymentStatus.successful ∷ ds) = not_immutable rolling ds
not_immutable rolling (_ ∷ ds) = ground arith

abbrev pub can_be_deleted : VersionDao → Bool
can_be_deleted version =
    if is_rolling version.version_type
    then all is_replaceable version.deployments && is_versioned version.project_type
    else all is_unfinished version.deployments && is_childless version

-- An incremental version can be changed when it has no child and all its deployments are being
-- prepared or failed, and a rolling version always. An incremental version can be deleted under the
-- same condition, and a rolling one when its project is versioned and all its deployments are being
-- prepared, failed or successful.
pub version_policy :
    (version : VersionDao)
    → (version_is_mutable version ≡ (
        is_rolling version.version_type
        || (all is_unfinished version.deployments && is_childless version)))
      × (version_is_deletable version ≡ can_be_deleted version)
unfolding version_is_mutable version_is_deletable
version_policy version = ground (arith, not_immutable version.version_type version.deployments)
