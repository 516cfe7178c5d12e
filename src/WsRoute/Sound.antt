-- ===== src/WsRoute/Sound.antt =====
-- What a subscription and a removal keep of a route of websockets/route.ts.
use dyrectorio.Prelude.{
  Bool-cases, Option, String, ap, arith, if◌then◌else◌, inl, inr, is_some, lookup, nat_eq, none,
  refl, some, string_eq, subst, sym, ℕ, ◌<◌, ◌==◌, ◌∙◌, ◌≡◌, not, beq_sym, false, set, beq_refl,
  ltb, length, filter, lookup-filter,
}
use dyrectorio.WsRoute.{
  WsRoute, WsNamespace, store_object, remove_if, WsRouteMatch, WsClientCallbacks, new_namespace,
  leave, clients_without, subscribe_client, unsubscribe_client,
}
use dyrectorio.WsRoute.Subscribed.{is_subscribed, has_client}
use dyrectorio.WsRoute.Kept.{
  IsKept, Links, Elsewhere, put-Links, subscribe_client-Elsewhere, unsubscribe_client-Elsewhere,
  is_subscribed-left, length-set, is_subscribed-joined, drop-Links, lookup_of_length,
  length_positive,
}

abbrev pub object_of : Option ℕ → (ℕ → WsNamespace) → Option WsNamespace
object_of none objects = none
object_of (some n) objects = some (objects n)

-- The namespace that is stored under a path.
abbrev pub namespace_at : WsRoute → String → Option WsNamespace
namespace_at r path = object_of (lookup path r.namespaces) r.objects

abbrev pub IsLinked : WsRoute → Type 0
IsLinked r = Links (namespace_at r) r.subscriptions

-- Numbers are those of objects that were made.
abbrev pub IsNumbered : WsRoute → Type 0
IsNumbered r = (p : String) (n : ℕ) → lookup p r.namespaces ≡ some n → n < r.next_object

abbrev pub IsSound : WsRoute → Type 0
IsSound r = IsLinked r × IsNumbered r

module _ (r : WsRoute) (sound : IsSound r) where
  pub stored-IsKept :
      (p : String) (n : ℕ) → lookup p r.namespaces ≡ some n → IsKept p (some (r.objects n))
  stored-IsKept p n e = subst (λ found. IsKept p (object_of found r.objects)) e (sound.0.1 p)

  pub stored-client :
      (p t : String) (n : ℕ)
      → lookup p r.namespaces ≡ some n
      → is_some (lookup t (r.objects n).clients) ≡ is_subscribed t p r.subscriptions
  stored-client p t n e =
      subst (λ found. has_client t (object_of found r.objects) ≡ is_subscribed t p r.subscriptions)
        e (sound.0.0 p t)

  -- A number is stored under one path.
  pub stored-same :
      (p q : String) (n : ℕ)
      → lookup p r.namespaces ≡ some n
      → lookup q r.namespaces ≡ some n
      → p ≡ q
  stored-same p q n e f = sym (stored-IsKept p n e).0 ∙ (stored-IsKept q n f).0

  module _ (path : String) (n : ℕ) (stored : lookup path r.namespaces ≡ some n) where
    -- The namespaces after a stored one has changed.
    view-store :
        (ns : WsNamespace) (p : String) (found : Option ℕ)
        → lookup p r.namespaces ≡ found
        → object_of found (store_object n ns r.objects)
          ≡ (if path == p then some ns else object_of found r.objects)
    view-store ns p none e = elim (Bool-cases (path == p)) [
      | inl here ↦
          let same : path ≡ p = (string_eq.beq_iff path p).0 here in ground (arith, same, e, stored)
      | inr there ↦ rw there refl
    ]
    view-store ns p (some m) e = elim (Bool-cases (path == p)) [
      | inl here ↦
          let same : path ≡ p = (string_eq.beq_iff path p).0 here in ground (arith, same, e, stored)
      | inr there ↦ elim (Bool-cases (m == n)) [
        | inl number ↦
            let same : m ≡ n = (nat_eq.beq_iff m n).0 number in
            ground (
              arith,
              there,
              stored-same path p n stored (e ∙ ap some same),
              string_eq.beq_iff path p,
            )
        | inr other ↦ rw (there, other) refl
      ]
    ]

    -- The namespaces after the stored one was removed.
    view-remove :
        (ns : WsNamespace) (p : String) (found : Option ℕ)
        → lookup p r.namespaces ≡ found
        → object_of (if not (p == path) then found else none) (store_object n ns r.objects)
          ≡ (if path == p then none else object_of found r.objects)
    view-remove ns p found e = elim (Bool-cases (path == p)) [
      | inl here ↦ rw (beq_sym p path, here) refl
      | inr there ↦ rw (beq_sym p path, there) (view-store ns p found e ∙ rw there refl)
    ]

    pub joined-IsSound :
        (token : String) (callbacks : WsClientCallbacks)
        → is_some (lookup token (r.objects n).clients) ≡ false
        → let ns = r.objects n in
          IsSound (record r {
            objects =
                store_object n (record ns { clients = set token callbacks ns.clients }) r.objects;
            subscriptions = subscribe_client token ns.path r.subscriptions;
          })
    joined-IsSound token callbacks missing =
        let ns = r.objects n in
        let kept = stored-IsKept path n stored in
        (
          put-Links (namespace_at r) r.subscriptions sound.0 path
              (subscribe_client token ns.path r.subscriptions)
              (subst
                (λ q. Elsewhere path r.subscriptions (subscribe_client token q r.subscriptions))
                (sym kept.0) (subscribe_client-Elsewhere token path r.subscriptions))
              (namespace_at (record r {
                objects =
                    store_object n (record ns { clients = set token callbacks ns.clients })
                      r.objects;
                subscriptions = subscribe_client token ns.path r.subscriptions;
              }))
              (record ns { clients = set token callbacks ns.clients })
              (λ p.
                view-store (record ns { clients = set token callbacks ns.clients }) p
                  (lookup p r.namespaces) refl)
              (kept.0, length-set token callbacks ns.clients)
              (λ t.
                subst
                  (λ q.
                    is_some (lookup t (set token callbacks ns.clients))
                    ≡ is_subscribed t path (subscribe_client token q r.subscriptions))
                  (sym kept.0)
                  (is_subscribed-joined token path t callbacks ns.clients r.subscriptions
                    (stored-client path t n stored))),
          sound.1,
        )

    -- A client leaves, and its namespace is removed if no client is left.
    pub left-IsSound : (token : String) → IsSound (remove_if path (leave token n r))
    left-IsSound token =
        let ns = r.objects n in
        let left = clients_without token ns in
        let kept = stored-IsKept path n stored in
        let s' = unsubscribe_client token ns.path r.subscriptions in
        let elsewhere : Elsewhere path r.subscriptions s' =
          subst (λ q. Elsewhere path r.subscriptions (unsubscribe_client token q r.subscriptions))
            (sym kept.0) (unsubscribe_client-Elsewhere token path r.subscriptions) in
        let after : (t : String) → is_some (lookup t left) ≡ is_subscribed t path s' = λ t.
          subst
            (λ q.
              is_some (lookup t left)
              ≡ is_subscribed t path (unsubscribe_client token q r.subscriptions))
            (sym kept.0)
            (is_subscribed-left token path t ns.clients r.subscriptions
              (λ u. stored-client path u n stored)) in
        elim (Bool-cases (ltb (length left) 1)) [
          | inl empty ↦ rw empty (
            drop-Links (namespace_at r) r.subscriptions sound.0 path s' elsewhere
                (λ p.
                  object_of (lookup p (filter (λ e. not (e.0 == path)) r.namespaces))
                    (leave token n r).0.objects)
                (λ p.
                  ap (λ found. object_of found (leave token n r).0.objects)
                    (lookup-filter (λ j. not (j == path)) p r.namespaces)
                  ∙ view-remove (record ns { clients = left }) p (lookup p r.namespaces) refl)
                (λ t. sym (after t) ∙ lookup_of_length t left empty),
            λ p m e.
                ground (arith, e, lookup-filter (λ j. not (j == path)) p r.namespaces, sound.1 p m),
          )
          | inr some_left ↦ rw some_left (
            put-Links (namespace_at r) r.subscriptions sound.0 path s' elsewhere
                (namespace_at (leave token n r).0) (record ns { clients = left })
                (λ p. view-store (record ns { clients = left }) p (lookup p r.namespaces) refl)
                (kept.0, length_positive left some_left) after,
            sound.1,
          )
        ]

  -- The first client of a path makes its namespace.
  pub view-new :
      (match : WsRouteMatch) (ns : WsNamespace) (p : String) (found : Option ℕ)
      → lookup p r.namespaces ≡ found
      → object_of (if match.path == p then some r.next_object else found) (
          store_object r.next_object ns
            (store_object r.next_object (new_namespace match) r.objects))
        ≡ (if match.path == p then some ns else object_of found r.objects)
  view-new match ns p none e = elim (Bool-cases (match.path == p)) [
    | inl here ↦ rw (here, beq_refl r.next_object) refl
    | inr there ↦ rw there refl
  ]
  view-new match ns p (some m) e = elim (Bool-cases (match.path == p)) [
    | inl here ↦ rw (here, beq_refl r.next_object) refl
    | inr there ↦
        let old : (m == r.next_object) ≡ false =
          ground (arith, sound.1 p m e, nat_eq.beq_iff m r.next_object) in
        rw (there, old) refl
  ]
