-- ===== src/WsRoute/Kept.antt =====
-- What a change of one namespace of websockets/route.ts keeps.
use dyrectorio.Prelude.{
  Bool, Bool-cases, List, Option, String, [], ap, arith, beq_refl, beq_sym, false, filter,
  if◌then◌else◌, inl, inr, is_some, length, lookup, lookup-filter, lookup-set, ltb, none, not, refl,
  set, some, string_eq, subst, sym, true, ◌==◌, ◌∙◌, ◌∷◌, ◌≡◌, ◌≤◌, nat_eq,
}
use dyrectorio.WsRoute.{WsNamespace, WsClientCallbacks, subscribe_client, unsubscribe_client}
use dyrectorio.WsRoute.Subscribed.{
  is_subscribed, has_client, is_subscribed-subscribe_client, is_subscribed-unsubscribe_client,
}

-- A namespace is stored under its path, and has a client.
abbrev pub IsKept : String → Option WsNamespace → Type 0
IsKept path none = Unit {0}
IsKept path (some ns) = (ns.path ≡ path) × (1 ≤ length ns.clients)

-- A client is in the namespace of a path exactly where it is subscribed to the path.
abbrev pub Links : (String → Option WsNamespace) → List (String × String) → Type 0
Links namespace_at s =
    ((path token : String) → has_client token (namespace_at path) ≡ is_subscribed token path s)
    × ((path : String) → IsKept path (namespace_at path))

pub length-set {ℓ} :
    {V : Type ℓ} (k : String) (v : V) (m : List (String × V)) → 1 ≤ length (set k v m)
length-set k v [] = omega arith
length-set k v ((j, w) ∷ m) = elim (Bool-cases (j == k)) [
  | inl e ↦ rw e (omega arith)
  | inr e ↦ rw e (omega arith)
]

pub length_of_lookup {ℓ} :
    {V : Type ℓ} (k : String) (m : List (String × V)) → is_some (lookup k m) ≡ true → 1 ≤ length m
length_of_lookup k [] h = cc
length_of_lookup k (e ∷ m) h = omega arith

pub lookup_of_length {ℓ} :
    {V : Type ℓ} (k : String) (m : List (String × V))
    → ltb (length m) 1 ≡ true
    → is_some (lookup k m) ≡ false
lookup_of_length k [] h = refl
lookup_of_length k (e ∷ m) h = ground (arith, h)

pub length_positive {ℓ} : {V : Type ℓ} (m : List V) → ltb (length m) 1 ≡ false → 1 ≤ length m
length_positive [] h = ground (arith, h)
length_positive (e ∷ m) h = omega arith

pub IsKept-if :
    (b : Bool) (path : String) (one other : Option WsNamespace)
    → (b ≡ true → IsKept path one)
    → IsKept path other
    → IsKept path (if b then one else other)
IsKept-if true path one other h k = h refl
IsKept-if false path one other h k = k

-- Subscriptions to other paths are as before.
abbrev pub Elsewhere : String → List (String × String) → List (String × String) → Type 0
Elsewhere path s s' =
    (p t : String) → (path == p) ≡ false → is_subscribed t p s' ≡ is_subscribed t p s

module _ (before : String → Option WsNamespace) (s : List (String × String))
    (linked : Links before s) (path : String) (s' : List (String × String))
    (elsewhere : Elsewhere path s s') (after : String → Option WsNamespace) where
  pub put-Links :
      (ns : WsNamespace)
      → ((p : String) → after p ≡ (if path == p then some ns else before p))
      → IsKept path (some ns)
      → ((t : String) → is_some (lookup t ns.clients) ≡ is_subscribed t path s')
      → Links after s'
  put-Links ns view kept same = (
    λ p t. rw (view p) (elim (Bool-cases (path == p)) [
      | inl e ↦ rw e (same t ∙ ap (λ q. is_subscribed t q s') ((string_eq.beq_iff path p).0 e))
      | inr e ↦ rw e (linked.0 p t ∙ sym (elsewhere p t e))
    ]),
    λ p. rw (view p) (
        IsKept-if (path == p) p (some ns) (before p)
          (λ e. subst (λ q. IsKept q (some ns)) ((string_eq.beq_iff path p).0 e) kept)
          (linked.1 p)),
  )

  pub drop-Links :
      ((p : String) → after p ≡ (if path == p then none else before p))
      → ((t : String) → is_subscribed t path s' ≡ false)
      → Links after s'
  drop-Links view gone = (
    λ p t. rw (view p) (elim (Bool-cases (path == p)) [
      | inl e ↦
          rw e
            (sym (ap (λ q. is_subscribed t q s') (sym ((string_eq.beq_iff path p).0 e)) ∙ gone t))
      | inr e ↦ rw e (linked.0 p t ∙ sym (elsewhere p t e))
    ]),
    λ p. rw (view p) (IsKept-if (path == p) p none (before p) (λ e. tt) (linked.1 p)),
  )

pub subscribe_client-Elsewhere :
    (token path : String) (s : List (String × String))
    → Elsewhere path s (subscribe_client token path s)
subscribe_client-Elsewhere token path s p t other =
    is_subscribed-subscribe_client t p token path s ∙ rw other (ground arith)

pub unsubscribe_client-Elsewhere :
    (token path : String) (s : List (String × String))
    → Elsewhere path s (unsubscribe_client token path s)
unsubscribe_client-Elsewhere token path s p t other =
    is_subscribed-unsubscribe_client t p token path s ∙ rw other (ground arith)

pub is_subscribed-left :
    (token path t : String) (clients : List (String × WsClientCallbacks))
    (s : List (String × String))
    → ((u : String) → is_some (lookup u clients) ≡ is_subscribed u path s)
    → is_some (lookup t (filter (λ e. not (e.0 == token)) clients))
      ≡ is_subscribed t path (unsubscribe_client token path s)
is_subscribed-left token path t clients s before =
    rw (lookup-filter (λ j. not (j == token)) t clients) (
      sym (
        is_subscribed-unsubscribe_client t path token path s
        ∙ rw (sym (before t)) (ground (arith, beq_refl path, beq_sym token t))))

pub is_subscribed-joined :
    (token path t : String) (callbacks : WsClientCallbacks)
    (clients : List (String × WsClientCallbacks)) (s : List (String × String))
    → is_some (lookup t clients) ≡ is_subscribed t path s
    → is_some (lookup t (set token callbacks clients))
      ≡ is_subscribed t path (subscribe_client token path s)
is_subscribed-joined token path t callbacks clients s before =
    rw (lookup-set token t callbacks clients) (
      sym (
        is_subscribed-subscribe_client t path token path s
        ∙ rw (sym before) (ground (arith, beq_refl path))))
