-- ===== src/NeighborSecrets.antt =====
-- mergePrefixNeighborSecrets of domain/start-deployment.ts: the values of the secrets of the
-- deployments with the same prefix, the more recent deployment of a key first.
-- A deployment that comes in was deployed: `deployedAt.getTime()` is a number, as is `createdAt`.
pub mod Recency
use dyrectorio.Prelude.{
  lookup, set, ℕ, String, Bool, false, not, Option, none, some, List, [], ◌∷◌, map, fold, ltb,
  string_eq, option_eq, ◌==◌, if◌then◌else◌, items,
}
use dyrectorio.Container.{UniqueSecretKeyValue}

pub record SecretDeployment : Type 0 where
  pub created_at : ℕ
  pub deployed_at : ℕ
  pub secrets : Option (List UniqueSecretKeyValue)

pub record SecretCandidate : Type 0 where
  pub deployed_at : ℕ
  pub value : String

-- `sort` by `other.createdAt - one.createdAt`, which is stable: the newest first.
unfoldable pub insert_newest : SecretDeployment → List SecretDeployment → List SecretDeployment
insert_newest d [] = d ∷ []
insert_newest d (e ∷ rest) =
    if ltb d.created_at e.created_at then e ∷ insert_newest d rest else d ∷ e ∷ rest

unfoldable pub sort_newest : List SecretDeployment → List SecretDeployment
unfolding insert_newest
sort_newest [] = []
sort_newest (d ∷ rest) = insert_newest d (sort_newest rest)

-- `candidate && candidate.deployedAt.getTime() > depl.deployedAt.getTime()`
abbrev pub is_newer : Option SecretCandidate → ℕ → Bool
is_newer none deployed_at = false
is_newer (some c) deployed_at = ltb deployed_at c.deployed_at

unfoldable pub offer :
    String
    → ℕ
    → List (String × SecretCandidate)
    → UniqueSecretKeyValue
    → List (String × SecretCandidate)
offer public_key deployed_at result it =
    if not (it.public_key == some public_key)
    then result
    else if is_newer (lookup it.key result) deployed_at
    then result
    else set it.key (record { deployed_at = deployed_at; value = it.value }) result

unfoldable pub offer_all :
    String → List (String × SecretCandidate) → SecretDeployment → List (String × SecretCandidate)
offer_all public_key result depl =
    fold (offer public_key depl.deployed_at) result (items depl.secrets)

unfoldable pub candidates : List SecretDeployment → String → List (String × SecretCandidate)
candidates deployments public_key = fold (offer_all public_key) [] (sort_newest deployments)

unfoldable pub merge_prefix_neighbor_secrets :
    List SecretDeployment → String → List (String × String)
merge_prefix_neighbor_secrets deployments public_key =
    map (λ entry. (entry.0, entry.1.value)) (candidates deployments public_key)
