-- ===== src/NeighborSecrets/Recency.antt =====
-- mergePrefixNeighborSecrets of domain/start-deployment.ts gives the most recent value of a key.
use mathlib.Core.Option
use dyrectorio.Prelude.{
  lookup, lookup-set, ℕ, String, Bool, true, false, not, ◌&&◌, ◌||◌, Option, none, some, List, [],
  ◌∷◌, ◌++◌, map, fold, any, any-append, ltb, items, ◌==◌, nat_eq, string_eq, option_eq,
  if◌then◌else◌, Bool-cases, inl, inr, ◌≡◌, refl, sym, ◌∙◌, arith, beq_refl, fold-append, ◌≤◌,
  or-false, find, any_mono,
}
use dyrectorio.Container.{UniqueSecretKeyValue}
use dyrectorio.NeighborSecrets.{
  SecretDeployment, SecretCandidate, insert_newest, sort_newest, is_newer, offer, offer_all,
  merge_prefix_neighbor_secrets, candidates,
}

-- A secret together with the time at which its deployment was deployed.
abbrev pub Offer : Type 0
Offer = ℕ × UniqueSecretKeyValue

abbrev pub offers_of : SecretDeployment → List Offer
offers_of d = map (λ it. (d.deployed_at, it)) (items d.secrets)

abbrev pub all_offers : List SecretDeployment → List Offer
all_offers [] = []
all_offers (d ∷ ds) = offers_of d ++ all_offers ds

module _ (p : Offer → Bool) where
  any-insert_newest :
      (d : SecretDeployment) (ds : List SecretDeployment)
      → any p (all_offers (insert_newest d ds)) ≡ (any p (offers_of d) || any p (all_offers ds))
  unfolding insert_newest
  any-insert_newest d [] = any-append p (offers_of d) []
  any-insert_newest d (e ∷ ds) = elim (Bool-cases (ltb d.created_at e.created_at)) [
    | inl older ↦ rw older (
        any-append p (offers_of e) (all_offers (insert_newest d ds))
        ∙ rw (any-insert_newest d ds, any-append p (offers_of e) (all_offers ds)) (ground arith))
    | inr newer ↦ rw newer (any-append p (offers_of d) (all_offers (e ∷ ds)))
  ]

  any-sort_newest :
      (ds : List SecretDeployment) → any p (all_offers (sort_newest ds)) ≡ any p (all_offers ds)
  unfolding sort_newest
  any-sort_newest [] = refl
  any-sort_newest (d ∷ ds) =
      any-insert_newest d (sort_newest ds)
      ∙ rw (any-sort_newest ds) (sym (any-append p (offers_of d) (all_offers ds)))

module _ (public_key : String) where
  abbrev step : List (String × SecretCandidate) → Offer → List (String × SecretCandidate)
  step m o = offer public_key o.0 m o.1

  fold-offers_of :
      (n : ℕ) (secrets : List UniqueSecretKeyValue) (m : List (String × SecretCandidate))
      → fold (offer public_key n) m secrets ≡ fold step m (map (λ it. (n, it)) secrets)
  fold-offers_of n [] m = refl
  fold-offers_of n (it ∷ secrets) m = fold-offers_of n secrets (offer public_key n m it)

  fold-all_offers :
      (ds : List SecretDeployment) (m : List (String × SecretCandidate))
      → fold (offer_all public_key) m ds ≡ fold step m (all_offers ds)
  unfolding offer_all
  fold-all_offers [] m = refl
  fold-all_offers (d ∷ ds) m =
      fold-all_offers ds (offer_all public_key m d)
      ∙ rw (fold-offers_of d.deployed_at (items d.secrets) m)
          (sym (fold-append step m (offers_of d) (all_offers ds)))

-- The offers that were seen, the last one first.
abbrev seen_after : List Offer → List Offer → List Offer
seen_after seen os = fold (λ s o. o ∷ s) seen os

module _ (public_key k : String) where
  -- The offer is of the key `k`, under the public key.
  abbrev pub counts : Offer → Bool
  counts o = o.1.public_key == some public_key && o.1.key == k

  lookup-offer :
      (m : List (String × SecretCandidate)) (o : Offer)
      → lookup k (offer public_key o.0 m o.1) ≡ (
          if counts o && not (is_newer (lookup k m) o.0)
          then some (record { deployed_at = o.0; value = o.1.value })
          else lookup k m)
  unfolding offer
  lookup-offer m (n, it) = elim (Bool-cases (it.key == k)) [
    | inl same ↦
        let here : it.key ≡ k = (string_eq.beq_iff it.key k).0 same in
        rw here (
          ground
            (arith, beq_refl k, lookup-set k k (record { deployed_at = n; value = it.value }) m))
    | inr other ↦
        ground (arith, lookup-set it.key k (record { deployed_at = n; value = it.value }) m)
  ]

  -- What is known of the candidate of `k` after the offers `seen`.
  abbrev Recent : List Offer → Option SecretCandidate → Type 0
  Recent seen none = any counts seen ≡ false
  Recent seen (some c) =
      (any (λ o. counts o && ltb c.deployed_at o.0) seen ≡ false)
      × (any (λ o. counts o && (o.0 == c.deployed_at && o.1.value == c.value)) seen ≡ true)

  abbrev next_candidate : Option SecretCandidate → Offer → Option SecretCandidate
  next_candidate l o =
      if counts o && not (is_newer l o.0)
      then some (record { deployed_at = o.0; value = o.1.value })
      else l

  none_later :
      (t : ℕ) (seen : List Offer)
      → any counts seen ≡ false
      → any (λ o. counts o && ltb t o.0) seen ≡ false
  none_later t [] h = refl
  none_later t (o ∷ seen) h = ground (arith, none_later t seen)

  none_later_mono :
      (t u : ℕ) (seen : List Offer)
      → t ≤ u
      → any (λ o. counts o && ltb t o.0) seen ≡ false
      → any (λ o. counts o && ltb u o.0) seen ≡ false
  none_later_mono t u [] h k = refl
  none_later_mono t u (o ∷ seen) h k = ground (arith, none_later_mono t u seen h)

  next_candidate-Recent :
      (seen : List Offer) (o : Offer) (l : Option SecretCandidate)
      → Recent seen l
      → Recent (o ∷ seen) (next_candidate l o)
  next_candidate-Recent seen o none h = ground (arith, none_later o.0 seen h, beq_refl o.1.value)
  next_candidate-Recent seen o (some c) h =
      ground (arith, none_later_mono c.deployed_at o.0 seen, beq_refl o.1.value)

  fold-Recent :
      (os seen : List Offer) (m : List (String × SecretCandidate))
      → Recent seen (lookup k m)
      → Recent (seen_after seen os) (lookup k (fold (step public_key) m os))
  fold-Recent [] seen m h = h
  fold-Recent (o ∷ os) seen m h =
      fold-Recent os (o ∷ seen) (offer public_key o.0 m o.1)
        (rw (lookup-offer m o) (next_candidate-Recent seen o (lookup k m) h))

any-seen_after :
    (p : Offer → Bool) (os seen : List Offer)
    → any p (seen_after seen os) ≡ (any p os || any p seen)
any-seen_after p [] seen = refl
any-seen_after p (o ∷ os) seen = any-seen_after p os (o ∷ seen) ∙ ground arith

-- The value that the result has for a key.
abbrev pub value_of : String → List (String × String) → Option String
value_of k m = Option.map (λ (e : String × String). e.1) (find (λ e. e.0 == k) m)

value_of-lookup :
    (k : String) (m : List (String × SecretCandidate))
    → value_of k (map (λ e. (e.0, e.1.value)) m) ≡ Option.map (λ c. c.value) (lookup k m)
value_of-lookup k [] = refl
value_of-lookup k ((j, c) ∷ m) = ground (arith, value_of-lookup k m)

module _ (deployments : List SecretDeployment) (public_key k : String) where
  -- There is no value where no offer counts; and a value is that of an offer that counts, where no
  -- offer that counts is later.
  abbrev pub IsMostRecent : Option String → Type 0
  IsMostRecent none = any (counts public_key k) (all_offers deployments) ≡ false
  IsMostRecent (some v) =
      any
        (λ o.
          counts public_key k o
          && (o.1.value == v
              && not (any (λ q. counts public_key k q && ltb o.0 q.0) (all_offers deployments))))
        (all_offers deployments)
      ≡ true

  same_offers :
      (p : Offer → Bool)
      → any p (seen_after [] (all_offers (sort_newest deployments)))
        ≡ any p (all_offers deployments)
  same_offers p =
      any-seen_after p (all_offers (sort_newest deployments)) []
      ∙ or-false _
      ∙ any-sort_newest p deployments

  candidates-Recent :
      Recent public_key k
        (seen_after [] (all_offers (sort_newest deployments)))
        (lookup k (candidates deployments public_key))
  unfolding candidates
  candidates-Recent =
      rw (fold-all_offers public_key (sort_newest deployments) [])
        (fold-Recent public_key k (all_offers (sort_newest deployments)) [] [] refl)

  abbrev no_later : ℕ → Bool
  no_later t = not (any (λ q. counts public_key k q && ltb t q.0) (all_offers deployments))

  no_later_offer :
      (c : SecretCandidate) (o : Offer)
      → no_later c.deployed_at ≡ true
      → (counts public_key k o && (o.0 == c.deployed_at && o.1.value == c.value)) ≡ true
      → (counts public_key k o && (o.1.value == c.value && no_later o.0)) ≡ true
  no_later_offer c o latest h =
      let when : o.0 ≡ c.deployed_at = ground arith in rw (when, latest) (ground arith)

  Recent-IsMostRecent :
      (l : Option SecretCandidate)
      → Recent public_key k (seen_after [] (all_offers (sort_newest deployments))) l
      → IsMostRecent (Option.map (λ c. c.value) l)
  Recent-IsMostRecent none h = sym (same_offers (counts public_key k)) ∙ h
  Recent-IsMostRecent (some c) (latest, given) =
      any_mono _ _ (all_offers deployments)
        (λ o h.
          no_later_offer c o
            (rw (sym (same_offers (λ q. counts public_key k q && ltb c.deployed_at q.0)) ∙ latest)
              refl)
            h)
        (sym (
            same_offers
              (λ o. counts public_key k o && (o.0 == c.deployed_at && o.1.value == c.value)))
          ∙ given)

  -- The result has a value for a key exactly when a secret of the key is under the public key, and
  -- it is the value of such a secret, where none belongs to a deployment that was deployed later.
  pub merge_prefix_neighbor_secrets-IsMostRecent :
      IsMostRecent (value_of k (merge_prefix_neighbor_secrets deployments public_key))
  unfolding merge_prefix_neighbor_secrets
  merge_prefix_neighbor_secrets-IsMostRecent =
      rw (value_of-lookup k (candidates deployments public_key))
        (Recent-IsMostRecent (lookup k (candidates deployments public_key)) candidates-Recent)
