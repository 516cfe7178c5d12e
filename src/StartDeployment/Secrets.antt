-- ===== src/StartDeployment/Secrets.antt =====
-- The checks on secrets of domain/start-deployment.ts.
use dyrectorio.Prelude.{
  ap, if◌then◌else◌, ◌==◌, false, subst, sym, String, Bool, true, not, ◌&&◌, ◌||◌, Option, none,
  some, List, [], ◌∷◌, map, filter, any, all, any-filter, any-congr, contains, items, is_some,
  string_eq, option_eq, beq_refl, Bool-cases, inl, inr, ◌≡◌, refl, ◌∙◌, arith,
}
use dyrectorio.Container.{UniqueSecretKeyValue, ConcreteContainerConfigData}
use dyrectorio.StartDeployment.{
  is_needed, missing_secrets, missing_or_none, missing_secrets_of_list, missing_secrets_of,
  is_invalid, invalid_ids, reset_if_invalid, invalid_or_none, InvalidSecrets,
  collect_invalid_secrets, collect_invalid_secrets_of_list,
}

is_some-missing_or_none :
    (id : String) (secrets : List UniqueSecretKeyValue)
    → is_some (missing_or_none id secrets) ≡ any (λ s. true) secrets
is_some-missing_or_none id [] = refl
is_some-missing_or_none id (s ∷ secrets) = refl

missing-list :
    (secrets : List UniqueSecretKeyValue)
    → any (λ s. true) (missing_secrets secrets) ≡ any (λ s. is_needed s && not s.encrypted) secrets
missing-list secrets =
    any-filter (λ s. true) (λ it. not it.encrypted) (filter is_needed secrets)
    ∙ any-filter (λ s. not s.encrypted && true) is_needed secrets
    ∙ any-congr _ (λ s. is_needed s && not s.encrypted) secrets (λ s. ground arith)

-- Secrets are reported as missing exactly when one of them is required or has a value and is not
-- encrypted.
pub missing_secrets_of_iff :
    (id : String) (config : ConcreteContainerConfigData)
    → is_some (missing_secrets_of id (some config))
      ≡ any (λ s. is_needed s && not s.encrypted) (items config.secrets)
unfolding missing_secrets_of
missing_secrets_of_iff id config = by_secrets config.secrets
  where
    by_secrets :
        (secrets : Option (List UniqueSecretKeyValue))
        → is_some (missing_secrets_of_list id secrets)
          ≡ any (λ s. is_needed s && not s.encrypted) (items secrets)
    by_secrets none = refl
    by_secrets (some secrets) =
        is_some-missing_or_none id (missing_secrets secrets) ∙ missing-list secrets

module _ (public_key : String) where
  -- Every invalid secret of the list has an id among `ids`.
  abbrev covered : List String → List UniqueSecretKeyValue → Bool
  covered ids = all λ s. not (is_invalid public_key s) || contains ids s.id

  covered-cons :
      (ids : List String) (i : String) (secrets : List UniqueSecretKeyValue)
      → covered ids secrets ≡ true
      → covered (i ∷ ids) secrets ≡ true
  covered-cons ids i [] h = refl
  covered-cons ids i (s ∷ secrets) h = ground (arith, covered-cons ids i secrets)

  invalid_ids-covered :
      (secrets : List UniqueSecretKeyValue)
      → covered (invalid_ids public_key secrets) secrets ≡ true
  invalid_ids-covered [] = refl
  invalid_ids-covered (s ∷ secrets) = elim (Bool-cases (is_invalid public_key s)) [
    | inl bad ↦
        let here : invalid_ids public_key (s ∷ secrets) ≡ s.id ∷ invalid_ids public_key secrets =
          ground arith in
        subst (λ ids. covered ids (s ∷ secrets) ≡ true) (sym here)
          (ground (
            arith,
            beq_refl s.id,
            covered-cons (invalid_ids public_key secrets) s.id secrets
                (invalid_ids-covered secrets),
          ))
    | inr good ↦
        let here : invalid_ids public_key (s ∷ secrets) ≡ invalid_ids public_key secrets =
          ground arith in
        subst (λ ids. covered ids (s ∷ secrets) ≡ true) (sym here)
          (rw good (invalid_ids-covered secrets))
  ]

  -- An invalid secret of the list has the id.
  abbrev pub has_invalid : String → List UniqueSecretKeyValue → Bool
  has_invalid id = any λ s. not (s.public_key == some public_key) && s.id == id

  -- A secret with the id of an invalid one has to be entered again, and another one stays.
  abbrev pub repaired : List UniqueSecretKeyValue → UniqueSecretKeyValue → UniqueSecretKeyValue
  repaired secrets s =
      if has_invalid s.id secrets
      then record {
        id = s.id;
        key = s.key;
        value = "";
        required = s.required;
        encrypted = false;
        public_key = some public_key;
      }
      else s

  contains-invalid_ids :
      (id : String) (secrets : List UniqueSecretKeyValue)
      → contains (invalid_ids public_key secrets) id ≡ has_invalid id secrets
  contains-invalid_ids id [] = refl
  contains-invalid_ids id (s ∷ secrets) = ground (arith, contains-invalid_ids id secrets)

  reset-repaired :
      (all_secrets secrets : List UniqueSecretKeyValue)
      → map (reset_if_invalid (invalid_ids public_key all_secrets) public_key) secrets
        ≡ map (repaired all_secrets) secrets
  reset-repaired all_secrets [] = refl
  reset-repaired all_secrets (s ∷ secrets) =
      ground (arith, contains-invalid_ids s.id all_secrets, reset-repaired all_secrets secrets)

  -- The result on a list of secrets, split by whether one of them is invalid.
  abbrev pub Repairs : List UniqueSecretKeyValue → Option InvalidSecrets → Type 0
  Repairs secrets none = all (λ s. s.public_key == some public_key) secrets ≡ true
  Repairs secrets (some r) =
      (any (λ s. not (s.public_key == some public_key)) secrets ≡ true)
      × (r.invalid ≡ map (λ s. s.id) (filter (λ s. not (s.public_key == some public_key)) secrets))
      × (r.secrets ≡ map (repaired secrets) secrets)
      × (all (λ s. s.public_key == some public_key) r.secrets ≡ true)

  reset-valid :
      (ids : List String) (secrets : List UniqueSecretKeyValue)
      → covered ids secrets ≡ true
      → all (λ s. s.public_key == some public_key) (map (reset_if_invalid ids public_key) secrets)
        ≡ true
  reset-valid ids [] h = refl
  reset-valid ids (s ∷ secrets) h = ground (arith, reset-valid ids secrets, beq_refl public_key)

  valid_of_none :
      (secrets : List UniqueSecretKeyValue)
      → invalid_ids public_key secrets ≡ []
      → all (λ s. s.public_key == some public_key) secrets ≡ true
  valid_of_none [] h = refl
  valid_of_none (s ∷ secrets) h = ground (arith, valid_of_none secrets)

  invalid_of_some :
      (secrets : List UniqueSecretKeyValue) (i : String) (ids : List String)
      → invalid_ids public_key secrets ≡ i ∷ ids
      → any (λ s. not (s.public_key == some public_key)) secrets ≡ true
  invalid_of_some [] i ids h = cc
  invalid_of_some (s ∷ secrets) i ids h = elim (Bool-cases (is_invalid public_key s)) [
    | inl bad ↦ rw bad refl
    | inr good ↦ ground (arith, invalid_of_some secrets i ids)
  ]

  invalid_or_none-Repairs :
      (id : String) (secrets : List UniqueSecretKeyValue) (ids : List String)
      → invalid_ids public_key secrets ≡ ids
      → Repairs secrets (invalid_or_none id public_key secrets ids)
  invalid_or_none-Repairs id secrets [] e = valid_of_none secrets e
  invalid_or_none-Repairs id secrets (i ∷ ids) e = (
    invalid_of_some secrets i ids e,
    sym e,
    ap (λ l. map (reset_if_invalid l public_key) secrets) (sym e) ∙ reset-repaired secrets secrets,
    reset-valid (i ∷ ids) secrets
        (subst (λ l. covered l secrets ≡ true) e (invalid_ids-covered secrets)),
  )

  -- If nothing is reported, every secret is under the public key. If something is, some secret is not;
  -- the ids of those that are not are reported, in order; and the list that is returned has the given
  -- secrets in order, where one with a reported id keeps its id, key and mark `required`, has an empty
  -- value, is not encrypted and is under the public key, and another one is unchanged. So every secret
  -- of it is under the public key.
  pub collect_invalid_secrets-Repairs :
      (id : String) (config : ConcreteContainerConfigData)
      → Repairs (items config.secrets) (collect_invalid_secrets id (some config) public_key)
  unfolding collect_invalid_secrets
  collect_invalid_secrets-Repairs id config = by_secrets config.secrets
    where
      by_secrets :
          (secrets : Option (List UniqueSecretKeyValue))
          → Repairs (items secrets) (collect_invalid_secrets_of_list id secrets public_key)
      by_secrets none = refl
      by_secrets (some secrets) =
          invalid_or_none-Repairs id secrets (invalid_ids public_key secrets) refl
