-- ===== src/Merge/Secrets.antt =====
-- mergeSecrets of domain/container-merge.ts, read by the id of a secret.
use dyrectorio.Prelude.{
  Bool, Bool-cases, List, Option, String, [], any, any-map, append-nil, arith, contains, false,
  filter, filter-append, if◌then◌else◌, inl, inr, items, map, none, not, refl, string_eq, ◌==◌, ◌∙◌,
  ◌∷◌, ◌≡◌, nat_eq,
}
use dyrectorio.Container.{UniqueSecretKey, UniqueSecretKeyValue}
use dyrectorio.Merge.{merge_secrets, valueless, secret_ids}

filter-none_of_any {ℓ} :
    {A : Type ℓ} (p : A → Bool) (xs : List A) → any p xs ≡ false → filter p xs ≡ []
filter-none_of_any p [] h = refl
filter-none_of_any p (x ∷ xs) h = ground (arith, filter-none_of_any p xs)

module _ (i : String) (strong : List UniqueSecretKeyValue) where
  abbrev has_id : UniqueSecretKeyValue → Bool
  has_id it = it.id == i

  abbrev free : UniqueSecretKey → Bool
  free it = not (contains (secret_ids strong) it.id)

  contains-secret_ids : contains (secret_ids strong) i ≡ any has_id strong
  contains-secret_ids = any-map (λ x. x == i) (λ (it : UniqueSecretKeyValue). it.id) strong

  -- The weak keys of an id that is free become secrets; those of one that is taken are left out.
  filter-missing :
      (weak : List UniqueSecretKey)
      → filter has_id (map valueless (filter free weak))
        ≡ (if any has_id strong then [] else map valueless (filter (λ it. it.id == i) weak))
  filter-missing [] = ground arith
  filter-missing (w ∷ weak) = elim (Bool-cases (w.id == i)) [
    | inl same ↦
        let here : w.id ≡ i = (string_eq.beq_iff w.id i).0 same in
        let found : contains (secret_ids strong) w.id ≡ any has_id strong =
          rw here contains-secret_ids in
        ground (arith, found, filter-missing weak)
    | inr other ↦ ground (arith, other, filter-missing weak)
  ]

abbrev pub secrets_of : String → List UniqueSecretKeyValue → List UniqueSecretKeyValue
secrets_of i = filter λ it. it.id == i

-- A key as a secret that has to be entered: each field, as the source writes it.
abbrev pub unset_secrets_of : String → List UniqueSecretKey → List UniqueSecretKeyValue
unset_secrets_of i weak =
    map
      (λ it. record {
        id = it.id;
        key = it.key;
        value = "";
        required = it.required;
        encrypted = false;
        public_key = none;
      })
      (filter (λ it. it.id == i) weak)

-- Of each id, the result has exactly the strong secrets in order, if there is one, and else exactly
-- the weak keys in order, each as a secret with the same id, key and mark `required`, whose value is
-- empty, which is not encrypted, and which has no public key.
pub secrets_of-merge_secrets :
    (i : String) (strong : Option (List UniqueSecretKeyValue))
    (weak : Option (List UniqueSecretKey))
    → secrets_of i (merge_secrets strong weak) ≡ (
        if any (λ it. it.id == i) (items strong)
        then secrets_of i (items strong)
        else unset_secrets_of i (items weak))
unfolding merge_secrets
secrets_of-merge_secrets i strong weak =
    filter-append (λ it. it.id == i) _ (items strong)
    ∙ rw (filter-missing i (items strong) (items weak))
        (elim (Bool-cases (any (λ it. it.id == i) (items strong))) [
          | inl taken ↦ rw taken refl
          | inr absent ↦
              rw (absent, filter-none_of_any (λ it. it.id == i) (items strong) absent)
                (append-nil (unset_secrets_of i (items weak)))
        ])
