-- ===== src/Conflict/Pairs.antt =====
-- The pairs that checkForConflicts goes through, for tests that no value meets with itself.
use dyrectorio.Prelude.{
  String, Bool, false, ◌&&◌, ◌||◌, List, [], ◌∷◌, ◌++◌, map, any, any-append, any-map, any-or,
  any-and, any-swap, any-congr, append_assoc, ◌≡◌, refl, ◌∙◌, arith, ◌==◌, string_eq,
}
use dyrectorio.Conflict.Check.{pairs_from, ordered_pairs}

module _ {A : Type 0} (f : A × A → Bool) (irreflexive : (a : A) → f (a, a) ≡ false) where
  -- Leaving an item out of a search for a partner of it makes no difference.
  partner_others :
      (c : A) (before after : List A)
      → any (λ d. f (c, d)) (before ++ after) ≡ any (λ d. f (c, d)) (before ++ c ∷ after)
  partner_others c before after =
      any-append (λ d. f (c, d)) before after
      ∙ ground (arith, any-append (λ d. f (c, d)) before (c ∷ after), irreflexive c)

  any-pairs_from :
      (before after : List A)
      → any f (pairs_from before after) ≡ any (λ c. any (λ d. f (c, d)) (before ++ after)) after
  any-pairs_from before [] = refl
  any-pairs_from before (c ∷ after) =
      any-append f (map (λ d. (c, d)) (before ++ after)) (pairs_from (before ++ c ∷ []) after)
      ∙ rw
          (
            any-map f (λ d. (c, d)) (before ++ after),
            partner_others c before after,
            any-pairs_from (before ++ c ∷ []) after,
            append_assoc before (c ∷ []) after,
          )
          refl

module _ {A : Type 0} (id : A → String) (q : A → A → Bool) (irreflexive : (a : A) → q a a ≡ false)
    (symmetric : (a b : A) → q a b ≡ q b a) where
  module _ (i : String) (configs : List A) where
    abbrev chosen : A → Bool
    chosen c = id c == i && any (q c) configs

    split_partners :
        (c : A)
        → any (λ d. q c d && (id c == i || id d == i)) configs
          ≡ (chosen c || any (λ d. id d == i && q d c) configs)
    split_partners c =
        any-congr _ (λ d. (id c == i && q c d) || (id d == i && q d c)) configs
          (λ d. ground (arith, symmetric c d))
        ∙ any-or (λ d. id c == i && q c d) (λ d. id d == i && q d c) configs
        ∙ rw (any-and (id c == i) (q c) configs) refl

    swap_partners : any (λ c. any (λ d. id d == i && q d c) configs) configs ≡ any chosen configs
    swap_partners =
        any-swap (λ c d. id d == i && q d c) configs configs
        ∙ any-congr _ chosen configs (λ d. any-and (id d == i) (q d) configs)

    -- Some pair in conflict involves the id exactly when a configuration with the id is in conflict
    -- with one of the list.
    pub any-ordered_pairs :
        any (λ p. q p.0 p.1 && (id p.0 == i || id p.1 == i)) (ordered_pairs configs)
        ≡ any (λ c. id c == i && any (q c) configs) configs
    any-ordered_pairs =
        any-pairs_from (λ p. q p.0 p.1 && (id p.0 == i || id p.1 == i))
          (λ a. rw (irreflexive a) refl) [] configs
        ∙ any-congr _ (λ c. chosen c || any (λ d. id d == i && q d c) configs) configs
            split_partners
        ∙ any-or chosen (λ c. any (λ d. id d == i && q d c) configs) configs
        ∙ ground (arith, swap_partners)

  pub any-ordered_pairs_some :
      (configs : List A)
      → any (λ p. q p.0 p.1) (ordered_pairs configs) ≡ any (λ c. any (q c) configs) configs
  any-ordered_pairs_some configs = any-pairs_from (λ p. q p.0 p.1) irreflexive [] configs
