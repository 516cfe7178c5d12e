-- ===== src/VersionIncrease/Copies.antt =====
-- What the copy of a version keeps (domain/version-increase.ts).
use mathlib.Core.Option
use dyrectorio.Prelude.{
  Bool-cases, inl, inr, none, some, String, Bool, true, Option, List, [], ◌∷◌, ◌++◌, map, all,
  all-map, contains, nat_eq, string_eq, append-nil, append_assoc, if◌then◌else◌, ◌≡◌, refl, sym,
  ◌∙◌, ap, arith,
}
use dyrectorio.Deployment.{DeploymentStatus, incremental}
use dyrectorio.Version.{VersionDao, ProjectType, version_is_mutable, version_is_deletable}
use dyrectorio.Version.Policy.{is_unfinished, version_policy}
use dyrectorio.VersionIncrease.{
  Version, Image, Deployment, IncreasedVersion, CopiedImage, CopiedDeployment, Instance,
  CopiedInstance, StoredConfig, copy_config, push_copies, copy_image, copy_instance,
  copy_deployment, increase_incremental_version,
}

push_copies-map :
    {A B : Type 0} (copy : A → B) (copies : List B) (xs : List A)
    → push_copies copy copies xs ≡ copies ++ map copy xs
push_copies-map copy copies [] = sym (append-nil copies)
push_copies-map copy copies (x ∷ xs) =
    push_copies-map copy (copies ++ copy x ∷ []) xs
    ∙ append_assoc copies (copy x ∷ []) (map copy xs)

-- The lists have the same length, and the relation holds between their items, in order.
abbrev pub Each : {A B : Type 0} → (A → B → Type 0) → List A → List B → Type 0
Each R [] [] = Unit {0}
Each R [] (y ∷ ys) = ⊥
Each R (x ∷ xs) [] = ⊥
Each R (x ∷ xs) (y ∷ ys) = R x y × Each R xs ys

Each-map :
    {A B : Type 0} (R : A → B → Type 0) (f : A → B)
    → ((x : A) → R x (f x))
    → (xs : List A) → Each R xs (map f xs)
Each-map R f h [] = tt
Each-map R f h (x ∷ xs) = (h x, Each-map R f h xs)

module _ {C : Type 0} where
  -- The instances of a deployment refer to images of the list.
  abbrev pub refers_to_images : List (Image C) → Deployment C → Bool
  refers_to_images images d = all (λ i. contains (map (λ im. im.id) images) i.image_id) d.instances

  abbrev pub copy_refers_to_images : List (CopiedImage C) → CopiedDeployment C → Bool
  copy_refers_to_images images d =
      all (λ i. contains (map (λ im. im.original_id) images) i.original_image_id) d.instances

  original_ids :
      (images : List (Image C))
      → map (λ im. im.original_id) (map copy_image images) ≡ map (λ im. im.id) images
  unfolding copy_image
  original_ids [] = refl
  original_ids (im ∷ images) = ap (λ l. im.id ∷ l) (original_ids images)

  copy_deployment-refers :
      (images : List (Image C)) (d : Deployment C)
      → copy_refers_to_images (map copy_image images) (copy_deployment d)
        ≡ refers_to_images images d
  unfolding copy_deployment
  copy_deployment-refers images d =
      rw (push_copies-map copy_instance [] d.instances, original_ids images)
        (all-map (λ i. contains (map (λ im. im.id) images) i.original_image_id) copy_instance
          d.instances)

  copies_refer :
      (images : List (Image C)) (ds : List (Deployment C))
      → all (copy_refers_to_images (map copy_image images)) (map copy_deployment ds)
        ≡ all (refers_to_images images) ds
  copies_refer images [] = refl
  copies_refer images (d ∷ ds) = rw (copy_deployment-refers images d, copies_refer images ds) refl

  -- The configuration of a copy is that of the original, less its id.
  abbrev pub columns_of : Option (StoredConfig C) → Option C
  columns_of = Option.map λ config. config.columns

  copy_config-columns : (config : Option (StoredConfig C)) → copy_config config ≡ columns_of config
  copy_config-columns none = refl
  copy_config-columns (some config) = refl

  -- A copied image refers to its original, and has all its columns.
  abbrev pub IsImageCopy : Image C → CopiedImage C → Type 0
  IsImageCopy im copy =
      (copy.original_id ≡ im.id)
      × (copy.id ≡ im.id)
      × (copy.created_at ≡ im.created_at)
      × (copy.created_by ≡ im.created_by)
      × (copy.updated_at ≡ im.updated_at)
      × (copy.updated_by ≡ im.updated_by)
      × (copy.name ≡ im.name)
      × (copy.tag ≡ im.tag)
      × (copy.order ≡ im.order)
      × (copy.labels ≡ im.labels)
      × (copy.registry_id ≡ im.registry_id)
      × (copy.version_id ≡ im.version_id)
      × (copy.config_id ≡ im.config_id)
      × (copy.config ≡ columns_of im.config)

  abbrev pub IsInstanceCopy : Instance C → CopiedInstance C → Type 0
  IsInstanceCopy inst copy =
      (copy.original_image_id ≡ inst.image_id) × (copy.config ≡ columns_of inst.config)

  -- A copied deployment is being prepared, with no tries and without the columns of the audit; it has
  -- the other columns of its original, and copies of its instances.
  abbrev pub IsDeploymentCopy : Deployment C → CopiedDeployment C → Type 0
  IsDeploymentCopy d copy =
      (copy.status ≡ DeploymentStatus.preparing)
      × (copy.tries ≡ 0)
      × (copy.created_at ≡ none)
      × (copy.created_by ≡ none)
      × (copy.updated_at ≡ none)
      × (copy.updated_by ≡ none)
      × (copy.id ≡ d.id)
      × (copy.note ≡ d.note)
      × (copy.prefix ≡ d.prefix)
      × (copy.protected ≡ d.protected)
      × (copy.deployed_at ≡ d.deployed_at)
      × (copy.deployed_by ≡ d.deployed_by)
      × (copy.version_id ≡ d.version_id)
      × (copy.node_id ≡ d.node_id)
      × (copy.config_id ≡ d.config_id)
      × (copy.config ≡ columns_of d.config)
      × Each IsInstanceCopy d.instances copy.instances

  copy_deployment-IsDeploymentCopy : (d : Deployment C) → IsDeploymentCopy d (copy_deployment d)
  unfolding copy_deployment copy_instance
  copy_deployment-IsDeploymentCopy d = (
    refl,
    refl,
    refl,
    refl,
    refl,
    refl,
    refl,
    refl,
    refl,
    refl,
    refl,
    refl,
    refl,
    refl,
    refl,
    copy_config-columns d.config,
    rw (push_copies-map copy_instance [] d.instances) (
        Each-map IsInstanceCopy copy_instance (λ i. (refl, copy_config-columns i.config))
          d.instances),
  )

  -- The new version has exactly one image for each of its parent's, in order: it refers to its
  -- original, and has all its columns and its configuration. If the parent copies its deployments, it
  -- has exactly one deployment for each of its parent's, in order, and else none: a copied deployment
  -- is being prepared, with no tries and without the columns of the audit; it has the other columns
  -- and the configuration of its original, and one instance for each of the original's, in order,
  -- with its configuration and a reference to the original's image.
  pub increase_incremental_version-copies :
      (parent : Version C) (name : String) (changelog : Option String)
      → let v = increase_incremental_version parent name changelog in
        Each IsImageCopy parent.images v.images
        × Each IsDeploymentCopy
            (if parent.auto_copy_deployments then parent.deployments else [])
            v.deployments
  unfolding increase_incremental_version copy_image
  increase_incremental_version-copies parent name changelog = (
    rw (push_copies-map copy_image [] parent.images) (
        Each-map IsImageCopy copy_image
          (λ im. (
            refl,
            refl,
            refl,
            refl,
            refl,
            refl,
            refl,
            refl,
            refl,
            refl,
            refl,
            refl,
            refl,
            copy_config-columns im.config,
          ))
          parent.images),
    elim (Bool-cases parent.auto_copy_deployments) [
      | inl e ↦
          rw (e, push_copies-map copy_deployment [] parent.deployments)
            (Each-map IsDeploymentCopy copy_deployment copy_deployment-IsDeploymentCopy
              parent.deployments)
      | inr e ↦ rw e tt
    ],
  )

  -- If every instance of the parent refers to an image of the parent, then every copied instance
  -- refers to the original of a copied image.
  pub increase_incremental_version-refers :
      (parent : Version C) (name : String) (changelog : Option String)
      → all (refers_to_images parent.images) parent.deployments ≡ true
      → let v = increase_incremental_version parent name changelog in
        all (copy_refers_to_images v.images) v.deployments ≡ true
  unfolding increase_incremental_version
  increase_incremental_version-refers parent name changelog h =
      rw
        (
          push_copies-map copy_deployment [] parent.deployments,
          push_copies-map copy_image [] parent.images,
        )
        (ground (arith, copies_refer parent.images parent.deployments))

  -- How the checks on versions read a new version, which has no child.
  abbrev pub version_dao : String → ProjectType → IncreasedVersion C → VersionDao
  version_dao id project v = record {
    id = id;
    version_type = v.version_type;
    children = [];
    deployments = map (λ d. d.status) v.deployments;
    project_type = project;
  }

  all_unfinished :
      (ds : List (Deployment C))
      → all is_unfinished (map (λ d. d.status) (map copy_deployment ds)) ≡ true
  unfolding copy_deployment
  all_unfinished [] = refl
  all_unfinished (d ∷ ds) = all_unfinished ds

  unfinished_copies :
      (parent : Version C) (name : String) (changelog : Option String)
      → all is_unfinished
          (map (λ d. d.status) (increase_incremental_version parent name changelog).deployments)
        ≡ true
  unfolding increase_incremental_version
  unfinished_copies parent name changelog =
      rw (push_copies-map copy_deployment [] parent.deployments)
        (ground (arith, all_unfinished parent.deployments))

  -- The new version of an incremental version can be changed and deleted.
  pub increase_incremental_version-mutable :
      (parent : Version C) (name id : String) (changelog : Option String) (project : ProjectType)
      → parent.version_type ≡ incremental
      → let v = version_dao id project (increase_incremental_version parent name changelog) in
        (version_is_mutable v ≡ true) × (version_is_deletable v ≡ true)
  unfolding increase_incremental_version
  increase_incremental_version-mutable parent name id changelog project h =
      let v = version_dao id project (increase_incremental_version parent name changelog) in
      let (changeable, deletable) = version_policy v in
      (
        changeable ∙ rw (h, unfinished_copies parent name changelog) refl,
        deletable ∙ rw (h, unfinished_copies parent name changelog) refl,
      )
