-- ===== src/Deployment/Policy.antt =====
-- What the status of a deployment allows (domain/deployment.ts).
use dyrectorio.Prelude.{
  String, Bool, true, false, not, ◌&&◌, ◌||◌, List, [], ◌∷◌, length, any, ltb, ◌==◌, string_eq,
  any-filter, ◌≡◌, refl, ◌∙◌, arith,
}
use dyrectorio.Deployment.{
  DeploymentStatus, VersionType, incremental, rolling, is_rolling, is_in_progress, is_preparing,
  check_deployment_copiability, deployment_is_deletable, deployment_is_mutable,
  check_deployment_deployability, PlacedDeployment, relevant_deployments, check_prefix_availability,
  prefix_is,
}

abbrev pub is_obsolete : DeploymentStatus → Bool
is_obsolete DeploymentStatus.obsolete = true
is_obsolete _ = false

-- A deployment can be started when it can be changed or is obsolete; what can be changed can be
-- deleted; what can be started can be copied; and in a rolling version a deployment can be changed
-- wherever it can be in an incremental one.
pub deployment_policy :
    (s : DeploymentStatus) (t : VersionType)
    → (check_deployment_deployability s t ≡ (deployment_is_mutable s t || is_obsolete s))
      × ((deployment_is_mutable s t && not (deployment_is_deletable s)) ≡ false)
      × ((check_deployment_deployability s t && not (check_deployment_copiability s)) ≡ false)
      × ((deployment_is_mutable s incremental && not (deployment_is_mutable s rolling)) ≡ false)
unfolding check_deployment_deployability deployment_is_mutable deployment_is_deletable
    check_deployment_copiability
deployment_policy s t = ground arith

abbrev pub is_active : PlacedDeployment → Bool
is_active it = is_preparing it.status || is_in_progress it.status

module _ (node_id prefix : String) where
  abbrev is_relevant : PlacedDeployment → Bool
  is_relevant it = it.node_id == node_id && prefix_is it.prefix prefix

  any-of_length : (ds : List PlacedDeployment) → ltb (length ds) 1 ≡ not (any (λ d. true) ds)
  any-of_length [] = refl
  any-of_length (d ∷ ds) = ground arith

  -- A prefix of a node is taken in a rolling version by any deployment there, and in an incremental
  -- version by one that is being prepared or in progress; otherwise it is available.
  pub check_prefix_availability_iff :
      (t : VersionType) (ds : List PlacedDeployment)
      → check_prefix_availability t ds node_id prefix
        ≡ not (any (λ d. is_relevant d && (is_rolling t || is_active d)) ds)
  unfolding check_prefix_availability
  check_prefix_availability_iff rolling ds =
      any-of_length (relevant_deployments ds node_id prefix)
      ∙ rw (any-filter (λ d. true) is_relevant ds) refl
  check_prefix_availability_iff incremental ds = rw (any-filter is_active is_relevant ds) refl
