-- ===== src/StartDeployment/Storage.antt =====
-- The storage of an instance's configuration (domain/start-deployment.ts).
use dyrectorio.Prelude.{false, some, [], ◌∷◌, ◌≡◌, refl, ◌∙◌, ap, arith}
use dyrectorio.Container.{StorageProperties, ConcreteContainerConfigData}
use dyrectorio.Merge.{
  squash_configs, merge_storage, merge_bodies, merge_configs_with_concrete_config,
}
use dyrectorio.Merge.Instance.{merge_instance_config_with_deployment_config}
use dyrectorio.StartDeployment.{
  DeployableDeployment, DeployableInstance, is_redeployment, deployment_config_of,
  instance_config_of,
}
use dyrectorio.StartDeployment.Precedence.{deployed, present-map, set_default_name-rest}

-- A merged storage has a flag, so it hides every weaker one.
merge_storage-hides :
    (a b weak : StorageProperties) → merge_storage (merge_storage a b) weak ≡ merge_storage a b
unfolding merge_storage
merge_storage-hides a b weak = ground arith

module _ (deployment : DeployableDeployment) (inst : DeployableInstance) where
  abbrev bundled : StorageProperties
  bundled = (squash_configs deployment.config_bundles).body.storage

  deployment_storage :
      is_redeployment deployment ≡ false
      → (deployment_config_of deployment).body.storage
        ≡ merge_storage deployment.config.body.storage bundled
  unfolding deployment_config_of merge_configs_with_concrete_config merge_bodies
  deployment_storage first = rw (first, present-map deployment.config_bundles) refl

  image_storage :
      (c : ConcreteContainerConfigData)
      → (merge_configs_with_concrete_config (some inst.image_config ∷ []) (some c)).body.storage
        ≡ merge_storage c.body.storage (squash_configs (inst.image_config ∷ [])).body.storage
  unfolding merge_configs_with_concrete_config merge_bodies
  image_storage c = refl

  instance_storage :
      (c : ConcreteContainerConfigData)
      → (merge_instance_config_with_deployment_config c inst.config).body.storage
        ≡ merge_storage inst.config.body.storage c.body.storage
  unfolding merge_instance_config_with_deployment_config
  instance_storage c = refl

  -- In a deployment that is not deployed again, the storage of an instance's configuration is made
  -- of the storages of the instance, of the deployment and of its bundles: the image's storage is
  -- never used, even where none of these has one.
  pub instance_config_of-storage :
      is_redeployment deployment ≡ false
      → (deployed deployment inst).body.storage
        ≡ merge_storage inst.config.body.storage (
            merge_storage deployment.config.body.storage
              (squash_configs deployment.config_bundles).body.storage)
  unfolding instance_config_of
  instance_config_of-storage first = rw first (
      set_default_name-rest (λ b. b.storage) (λ n c. refl) inst _
      ∙ instance_storage _
      ∙ ap (merge_storage inst.config.body.storage) (
          image_storage (deployment_config_of deployment)
          ∙ rw (deployment_storage first)
              (merge_storage-hides deployment.config.body.storage bundled _)))
