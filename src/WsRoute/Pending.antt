-- ===== src/WsRoute/Pending.antt =====
-- The removals of websockets/route.ts that wait for an answer, while other clients come and go.
use dyrectorio.Prelude.{
  Bool, Bool-cases, List, Option, String, [], ap, arith, beq_refl, beq_sym, false, inl, inr,
  is_some, length, lookup, lookup-filter, lookup-set, ltb, nat_eq, none, not, refl, set, some,
  string_eq, subst, true, ℕ, ◌&&◌, ◌+◌, ◌==◌, ◌∙◌, ◌∷◌, ◌≡◌,
}
use dyrectorio.WsRoute.{
  WsRoute, WsRouteMatch, WsNamespace, WsClientCallbacks, store_object, upsert_namespace,
  new_namespace, subscribe_client, subscribe_in, leave, clients_without, remove_if, Removal,
  nothing, settled, awaiting,
}
use dyrectorio.WsRoute.Kept.{
  put-Links, lookup_of_length, subscribe_client-Elsewhere, is_subscribed-joined,
}
use dyrectorio.WsRoute.Subscribed.{is_subscribed, has_client}
use dyrectorio.WsRoute.Sound.{
  object_of, namespace_at, IsSound, stored-same, joined-IsSound, view-new,
}

-- A client that waits is in the namespace that is stored under the path; a removal that is settled
-- removes no namespace.
abbrev pub IsHeld : String → String → Removal → WsRoute → Type 0
IsHeld token path nothing r = Unit {0}
IsHeld token path (settled reply should_remove) r = should_remove ≡ false
IsHeld token path (awaiting n) r =
    (lookup path r.namespaces ≡ some n) × (is_some (lookup token (r.objects n).clients) ≡ true)

-- What waits still does after a change, where the client of the path is not the given one.
abbrev pub Holds : (String → String → Bool) → WsRoute → WsRoute → Type 0
Holds other r r' =
    (t p : String) (removal : Removal)
    → other t p ≡ true
    → IsHeld t p removal r
    → IsHeld t p removal r'

module _ (r : WsRoute) (sound : IsSound r) where
  stored-held :
      (path t p : String) (n m : ℕ) (ns : WsNamespace)
      → lookup path r.namespaces ≡ some n
      → lookup p r.namespaces ≡ some m
      → is_some (lookup t (r.objects m).clients) ≡ true
      → ((path == p) ≡ true → m ≡ n → is_some (lookup t ns.clients) ≡ true)
      → is_some (lookup t (store_object n ns r.objects m).clients) ≡ true
  stored-held path t p n m ns stored e here same = elim (Bool-cases (m == n)) [
    | inl number ↦
        let eq : m ≡ n = (nat_eq.beq_iff m n).0 number in
        rw number (
          same ((string_eq.beq_iff path p).1 (stored-same r sound path p n stored (e ∙ ap some eq)))
            eq)
    | inr other ↦ rw other here
  ]

  joined-Holds :
      (path token : String) (n : ℕ) (callbacks : WsClientCallbacks) (s : List (String × String))
      → lookup path r.namespaces ≡ some n
      → let ns = r.objects n in
        Holds
          (λ t p. true)
          r
          (record r {
            objects =
                store_object n (record ns { clients = set token callbacks ns.clients }) r.objects;
            subscriptions = s;
          })
  joined-Holds path token n callbacks s stored t p nothing o h = tt
  joined-Holds path token n callbacks s stored t p (settled reply b) o h = h
  joined-Holds path token n callbacks s stored t p (awaiting m) o h =
      let ns = r.objects n in
      (
        h.0,
        stored-held path t p n m (record ns { clients = set token callbacks ns.clients }) stored h.0
            h.1
            (λ _ e. ground (
              arith,
              lookup-set token t callbacks ns.clients,
              ap (λ k. is_some (lookup t (r.objects k).clients)) e,
              h.1,
            )),
      )

  -- Another client than the one that leaves the path stays, so that its namespace does, too.
  pub left-Holds :
      (path token : String) (n : ℕ)
      → lookup path r.namespaces ≡ some n
      → Holds (λ t p. not (t == token && p == path)) r (remove_if path (leave token n r))
  left-Holds path token n stored t p nothing o h = tt
  left-Holds path token n stored t p (settled reply b) o h = h
  left-Holds path token n stored t p (awaiting m) o h =
      let ns = r.objects n in
      let left = clients_without token ns in
      let stays : (path == p) ≡ true → m ≡ n → is_some (lookup t left) ≡ true = λ here e. ground (
        arith,
        here,
        o,
        lookup-filter (λ k. not (k == token)) t ns.clients,
        ap (λ k. is_some (lookup t (r.objects k).clients)) e,
        h.1,
        beq_sym path p,
      ) in
      let client = stored-held path t p n m (record ns { clients = left }) stored h.0 h.1 stays in
      elim (Bool-cases (ltb (length left) 1)) [
        | inl empty ↦ rw empty (
          lookup-filter (λ j. not (j == path)) p r.namespaces ∙ elim (Bool-cases (path == p)) [
            | inl here ↦
                let same : path ≡ p = (string_eq.beq_iff path p).0 here in
                let number : m ≡ n =
                  ground (arith, h.0, stored, ap (λ q. lookup q r.namespaces) same) in
                ground (arith, stays here number, lookup_of_length t left empty)
            | inr there ↦ rw (beq_sym p path, there) h.0
          ],
          client,
        )
        | inr some_left ↦ rw some_left (h.0, client)
      ]

  first-IsSound :
      (token : String) (callbacks : WsClientCallbacks) (match : WsRouteMatch)
      → lookup match.path r.namespaces ≡ none
      → let ns : WsNamespace = record (new_namespace match) { clients = (token, callbacks) ∷ [] } in
        let r' : WsRoute = record r {
          namespaces = set match.path r.next_object r.namespaces;
          objects =
              store_object r.next_object ns
                (store_object r.next_object (new_namespace match) r.objects);
          next_object = r.next_object + 1;
          subscriptions = subscribe_client token match.path r.subscriptions;
        } in
        IsSound r' × Holds (λ t p. true) r r'
  first-IsSound token callbacks match absent =
      let ns : WsNamespace = record (new_namespace match) { clients = (token, callbacks) ∷ [] } in
      let objects =
        store_object r.next_object ns
          (store_object r.next_object (new_namespace match) r.objects) in
      let before : (t : String) → false ≡ is_subscribed t match.path r.subscriptions = λ t.
        subst
          (λ found.
            has_client t (object_of found r.objects) ≡ is_subscribed t match.path r.subscriptions)
          absent (sound.0.0 match.path t) in
      (
        (
          put-Links (namespace_at r) r.subscriptions sound.0 match.path
              (subscribe_client token match.path r.subscriptions)
              (subscribe_client-Elsewhere token match.path r.subscriptions)
              (λ p. object_of (lookup p (set match.path r.next_object r.namespaces)) objects) ns
              (λ p.
                ap (λ found. object_of found objects)
                  (lookup-set match.path p r.next_object r.namespaces)
                ∙ view-new r sound match ns p (lookup p r.namespaces) refl)
              (refl, omega arith)
              (λ t.
                is_subscribed-joined token match.path t callbacks [] r.subscriptions (before t)),
          λ p n e.
              ground (arith, e, lookup-set match.path p r.next_object r.namespaces, sound.1 p n),
        ),
        λ t p removal o h. kept t p removal h,
      )
    where
      kept :
          (t p : String) (removal : Removal)
          → IsHeld t p removal r
          → let ns : WsNamespace = record (new_namespace match) {
            clients = (token, callbacks) ∷ [];
          } in
            IsHeld t p removal (record r {
              namespaces = set match.path r.next_object r.namespaces;
              objects =
                  store_object r.next_object ns
                    (store_object r.next_object (new_namespace match) r.objects);
              next_object = r.next_object + 1;
              subscriptions = subscribe_client token match.path r.subscriptions;
            })
      kept t p nothing h = tt
      kept t p (settled reply b) h = h
      kept t p (awaiting m) h =
          let old : (m == r.next_object) ≡ false =
            ground (arith, sound.1 p m h.0, nat_eq.beq_iff m r.next_object) in
          (
            lookup-set match.path p r.next_object r.namespaces
                ∙ elim (Bool-cases (match.path == p)) [
                  | inl here ↦
                      let same : match.path ≡ p = (string_eq.beq_iff match.path p).0 here in
                      ground (arith, h.0, absent, ap (λ q. lookup q r.namespaces) same)
                  | inr there ↦ rw there h.0
                ],
            rw old h.1,
          )

  pub granted-IsSound :
      (token : String) (callbacks : WsClientCallbacks) (match : WsRouteMatch) (found : Option ℕ)
      → lookup match.path r.namespaces ≡ found
      → let r' = (subscribe_in token callbacks (upsert_namespace match found r)).0 in
        IsSound r' × Holds (λ t p. true) r r'
  granted-IsSound token callbacks match (some n) e =
      elim (Bool-cases (is_some (lookup token (r.objects n).clients))) [
        | inl there ↦ rw there (sound, λ t p removal o h. h)
        | inr missing ↦ rw missing (
          joined-IsSound r sound match.path n e token callbacks missing,
          joined-Holds match.path token n callbacks
              (subscribe_client token (r.objects n).path r.subscriptions) e,
        )
      ]
  granted-IsSound token callbacks match none e =
      rw (beq_refl r.next_object) (first-IsSound token callbacks match e)
