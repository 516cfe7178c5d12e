-- ===== src/Tests/Version.antt =====
-- The copies of versions, and what versions and deployments allow.
use dyrectorio.Prelude.{
  get_or, Bool-cases, inl, inr, ap, sym, ◌∙◌, String, true, false, none, some, List, [], ◌∷◌, ◌≡◌,
  refl, all, ℕ, arith, ◌<◌, Option, if◌then◌else◌, string_eq, ◌==◌,
}
use dyrectorio.Deployment.{
  DeploymentStatus, incremental, check_prefix_availability, PlacedDeployment,
  check_deployment_deployability, deployment_is_mutable, DeploymentStatusMessage,
  ProtoDeploymentStatus, DeploymentMessageLevel, new_deployment, deployment_status_to_db, start,
  on_disconnected, valid,
}
use dyrectorio.Deployment.Policy.{deployment_policy, check_prefix_availability_iff}
use dyrectorio.Deployment.Run.{updates, on_disconnected-updates}
use dyrectorio.VersionTree.{collect_parent_version_ids}
use dyrectorio.VersionTree.Walks.{Ancestors, collect_parent_version_ids-Ancestors}
use dyrectorio.Version.{VersionDao, versioned, version_is_mutable, version_is_deletable}
use dyrectorio.Version.Policy.{version_policy}
use dyrectorio.VersionIncrease.{Version, Image, Deployment, increase_incremental_version}
use dyrectorio.VersionIncrease.Copies.{
  increase_incremental_version-copies, Each, IsImageCopy, IsDeploymentCopy,
  increase_incremental_version-refers, increase_incremental_version-mutable, copy_refers_to_images,
  version_dao,
}

deployment_policy_example :
    check_deployment_deployability DeploymentStatus.obsolete incremental ≡ true
unfolding deployment_is_mutable
deployment_policy_example = (deployment_policy DeploymentStatus.obsolete incremental).0

abbrev taken : List PlacedDeployment
taken = record { status = DeploymentStatus.preparing; node_id = "node"; prefix = some "pr" } ∷ []

check_prefix_availability_iff_example :
    check_prefix_availability incremental taken "node" "pr" ≡ false
check_prefix_availability_iff_example = check_prefix_availability_iff "node" "pr" incremental taken

abbrev reported_as : ProtoDeploymentStatus → DeploymentStatusMessage
reported_as status = record {
  log = some [];
  deployment_status = some status;
  instance_progress = none;
  log_level = DeploymentMessageLevel.info;
}

on_disconnected-updates_example :
    (on_disconnected (
      updates (start (new_deployment "d1")) (
        reported_as ProtoDeploymentStatus.failed
        ∷ reported_as ProtoDeploymentStatus.unspecified
        ∷ []))).status
    ≡ valid DeploymentStatus.failed
unfolding deployment_status_to_db
on_disconnected-updates_example =
    (on_disconnected-updates "d1" (
      reported_as ProtoDeploymentStatus.failed
      ∷ reported_as ProtoDeploymentStatus.unspecified
      ∷ [])).0

abbrev obsolete_version : VersionDao
obsolete_version = record {
  id = "v1";
  version_type = incremental;
  children = [];
  deployments = DeploymentStatus.failed ∷ DeploymentStatus.obsolete ∷ [];
  project_type = versioned;
}

version_policy_example :
    (version_is_mutable obsolete_version ≡ false) × (version_is_deletable obsolete_version ≡ false)
version_policy_example = version_policy obsolete_version

abbrev parent_image : Image String
parent_image = record {
  id = "image";
  created_at = 1;
  created_by = "ada";
  updated_at = 2;
  updated_by = none;
  name = "nginx";
  tag = some "1";
  order = 0;
  labels = none;
  registry_id = "hub";
  version_id = "v1";
  config_id = "c1";
  config = some (record { id = "c1"; columns = "columns" });
}

abbrev parent_deployment : Deployment String
parent_deployment = record {
  id = "d1";
  created_at = 1;
  created_by = "ada";
  updated_at = 2;
  updated_by = none;
  note = none;
  prefix = some "pr";
  status = DeploymentStatus.successful;
  tries = 3;
  protected = false;
  deployed_at = some 7;
  deployed_by = some "ada";
  version_id = "v1";
  node_id = "node";
  config_id = "c2";
  config = none;
  instances =
      record {
        id = "i1";
        deployment_id = "d1";
        image_id = "image";
        config_id = "c3";
        config = none;
      }
      ∷ [];
}

abbrev parent_version : Version String
parent_version = record {
  id = "v1";
  created_at = 1;
  created_by = "ada";
  updated_at = 2;
  updated_by = none;
  name = "1.0";
  changelog = none;
  is_default = true;
  version_type = incremental;
  auto_copy_deployments = true;
  project_id = "project";
  chain_id = none;
  images = parent_image ∷ [];
  deployments = parent_deployment ∷ [];
}

increase_incremental_version-copies_example :
    Each IsImageCopy
      (parent_image ∷ [])
      (increase_incremental_version parent_version "1.1" none).images
    × Each IsDeploymentCopy
        (parent_deployment ∷ [])
        (increase_incremental_version parent_version "1.1" none).deployments
increase_incremental_version-copies_example =
    increase_incremental_version-copies parent_version "1.1" none

increase_incremental_version-refers_example :
    all
      (copy_refers_to_images (increase_incremental_version parent_version "1.1" none).images)
      (increase_incremental_version parent_version "1.1" none).deployments
    ≡ true
increase_incremental_version-refers_example =
    increase_incremental_version-refers parent_version "1.1" none refl

increase_incremental_version-mutable_example :
    version_is_mutable
      (version_dao "v2" versioned (increase_incremental_version parent_version "1.1" none))
    ≡ true
increase_incremental_version-mutable_example =
    (increase_incremental_version-mutable parent_version "1.1" "v2" none versioned refl).0

-- The third version was increased from the second, and that from the first.
abbrev parent_of : String → Option String
parent_of v = if v == "v3" then some "v2" else if v == "v2" then some "v1" else none

abbrev age_of : String → ℕ
age_of v = if v == "v3" then 2 else if v == "v2" then 1 else 0

age_of-some : (x p : String) → some x ≡ some p → age_of p ≡ age_of x
age_of-some x p e = sym (ap (λ o. age_of (get_or o x)) e)

parent_of_older : (v p : String) → parent_of v ≡ some p → age_of p < age_of v
parent_of_older v p found = elim (Bool-cases (v == "v3")) [
  | inl third ↦
      let e : some "v2" ≡ some p = sym (rw third refl) ∙ found in
      rw third (omega (arith, age_of-some "v2" p e))
  | inr other ↦ elim (Bool-cases (v == "v2")) [
    | inl second ↦
        let e : some "v1" ≡ some p = sym (rw (other, second) refl) ∙ found in
        rw (other, second) (omega (arith, age_of-some "v1" p e))
    | inr neither ↦ let e : none ≡ some p = sym (rw (other, neither) refl) ∙ found in cc
  ]
]

collect_parent_version_ids-Ancestors_example :
    (ids : List String) × (collect_parent_version_ids 3 parent_of "v3" ≡ some ids)
    × Ancestors parent_of "v3" ids
collect_parent_version_ids-Ancestors_example =
    collect_parent_version_ids-Ancestors parent_of age_of parent_of_older 3 "v3" (omega arith)

collect_parent_version_ids_test :
    collect_parent_version_ids 3 parent_of "v3" ≡ some ("v2" ∷ "v1" ∷ [])
unfolding collect_parent_version_ids
collect_parent_version_ids_test = refl
