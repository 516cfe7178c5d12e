-- ===== src/WsRoute/Linked.antt =====
-- The namespaces and the clients of websockets/route.ts agree on who is subscribed to what, also while
-- clients wait for the answers of their `unsubscribe` callbacks.
use dyrectorio.Prelude.{
  Bool, Bool-cases, List, Option, String, [], all, arith, false, filter, fold, inl, inr, is_some,
  lookup, map, none, not, refl, set, some, subst, sym, true, ℕ, ◌&&◌, ◌++◌, ◌==◌, ◌∷◌, ◌≡◌,
  string_eq, nat_eq,
}
use dyrectorio.Merge.Ranges.{all_apart, all_apart-append}
use dyrectorio.WsRoute.{
  WsRoute, WsRouteMatch, WsClientCallbacks, Removal, nothing, settled, awaiting, upsert_namespace,
  subscribe_in, subscribe_with, subscribe_granted, on_subscribe, on_unsubscribe, on_client_bind,
  on_client_disconnect, paths_of, remove_client_from_namespace, remove_from_all, leave, remove_if,
  emit, forget_callbacks,
}
use dyrectorio.WsRoute.Sound.{IsLinked, IsSound, left-IsSound}
use dyrectorio.WsRoute.Pending.{IsHeld, Holds, granted-IsSound, left-Holds}
use dyrectorio.WsRoute.Steps.{
  Pending, RouteState, Event, binding, subscribing, granting, unsubscribing, disconnecting,
  answering, dropping, forgetting, new_routing, step, pick, pending_of, after_call, answered,
  dropped, is_orderly, all_orderly,
}
use dyrectorio.WsRoute.Deferred.{
  remove_from-deferred, remove_from_all-deferred, removals-apart, removals-others,
}
use dyrectorio.WsRoute.Waiting.{
  clash, AllHeld, AllHeld-append, AllHeld-Holds, all-true, all-not, HeldPicked, ApartPicked,
  pick-HeldPicked, pick-ApartPicked, IsDistinct, subscribe_client-IsDistinct,
  unsubscribe_client-IsDistinct, paths_of-apart,
}

abbrev pub IsConsistent : RouteState → Type 0
IsConsistent m =
    IsSound m.route
    × IsDistinct m.route.subscriptions
    × AllHeld m.route m.pending
    × (all_apart clash m.pending ≡ true)

-- After a change of the route that every pending removal survives.
moved-IsConsistent :
    (m : RouteState) (r' : WsRoute)
    → IsConsistent m
    → IsSound r' × Holds (λ t p. true) m.route r'
    → IsDistinct r'.subscriptions
    → IsConsistent (record m { route = r' })
moved-IsConsistent m r' c h d =
    (h.0, d, AllHeld-Holds (λ t p. true) m.route r' m.pending h.1 (all-true m.pending) c.2, c.3)

subscribe_in-IsDistinct :
    (token : String) (callbacks : WsClientCallbacks) (x : WsRoute × ℕ)
    → IsDistinct x.0.subscriptions
    → IsDistinct (subscribe_in token callbacks x).0.subscriptions
subscribe_in-IsDistinct token callbacks (r, n) h =
    elim (Bool-cases (is_some (lookup token (r.objects n).clients))) [
      | inl there ↦ rw there h
      | inr missing ↦
          rw missing (subscribe_client-IsDistinct token (r.objects n).path r.subscriptions h)
    ]

granted-IsDistinct :
    (r : WsRoute) (token : String) (callbacks : WsClientCallbacks) (match : WsRouteMatch)
    (found : Option ℕ)
    → IsDistinct r.subscriptions
    → IsDistinct (subscribe_in token callbacks (upsert_namespace match found r)).0.subscriptions
granted-IsDistinct r token callbacks match none h =
    subscribe_in-IsDistinct token callbacks (upsert_namespace match none r) h
granted-IsDistinct r token callbacks match (some n) h =
    subscribe_in-IsDistinct token callbacks (r, n) h

-- Removing a namespace leaves the subscriptions as they are.
remove_if-IsDistinct :
    (path : String) (x : WsRoute × Bool)
    → IsDistinct x.0.subscriptions
    → IsDistinct (remove_if path x).subscriptions
remove_if-IsDistinct path (r, true) h = h
remove_if-IsDistinct path (r, false) h = h

emitted-IsConsistent :
    (m : RouteState) (token path : String) (removal : Removal) (rest : List Pending)
    → IsConsistent m
    → IsHeld token path removal m.route × AllHeld m.route rest
    → (all (λ y. not (y.token == token && y.path == path)) rest ≡ true)
      × (all_apart clash rest ≡ true)
    → IsConsistent (record { route = (emit token path removal m.route).0; pending = rest })
unfolding emit
emitted-IsConsistent m token path nothing rest c h a = (c.0, c.1, h.1, a.1)
emitted-IsConsistent m token path (settled reply b) rest c h a = rw h.0 (c.0, c.1, h.1, a.1)
emitted-IsConsistent m token path (awaiting n) rest c h a =
    let r' = remove_if path (leave token n m.route) in
    (
      left-IsSound m.route c.0 path n h.0.0 token,
      remove_if-IsDistinct path (leave token n m.route)
          (unsubscribe_client-IsDistinct token (m.route.objects n).path m.route.subscriptions c.1),
      AllHeld-Holds (λ t p. not (t == token && p == path)) m.route r' rest
          (left-Holds m.route c.0 path token n h.0.0) a.0 h.1,
      a.1,
    )

answered-IsConsistent :
    (m : RouteState) (found : Option (Pending × List Pending))
    → IsConsistent m
    → HeldPicked m.route found
    → ApartPicked found
    → IsConsistent (answered m found)
answered-IsConsistent m none c h a = c
answered-IsConsistent m (some (e, rest)) c h a =
    emitted-IsConsistent m e.token e.path e.removal rest c h a

dropped-IsConsistent :
    (m : RouteState) (found : Option (Pending × List Pending))
    → IsConsistent m
    → HeldPicked m.route found
    → ApartPicked found
    → IsConsistent (dropped m found)
dropped-IsConsistent m none c h a = c
dropped-IsConsistent m (some (e, rest)) c h a = (c.0, c.1, h.1, a.1)

subscribed-IsConsistent :
    (m : RouteState) (found : Option WsClientCallbacks) (token : String) (authorized : Bool)
    (match : WsRouteMatch)
    → IsConsistent m
    → IsConsistent (record m {
      route = after_call m.route (subscribe_with found token authorized match m.route);
    })
subscribed-IsConsistent m none token authorized match c = c
subscribed-IsConsistent m (some callbacks) token authorized match c =
    elim (Bool-cases (is_some callbacks.authorize)) [
      | inl e ↦ rw e (elim (Bool-cases authorized) [
        | inl granted ↦ rw granted (granted_step m token callbacks match c)
        | inr refused ↦ rw refused c
      ])
      | inr e ↦ rw e c
    ]
  where
    granted_step :
        (m : RouteState) (token : String) (callbacks : WsClientCallbacks) (match : WsRouteMatch)
        → IsConsistent m
        → IsConsistent (record m { route = (subscribe_granted token callbacks match m.route).0 })
    granted_step m token callbacks match c =
        let found = lookup match.path m.route.namespaces in
        moved-IsConsistent m (subscribe_granted token callbacks match m.route).0 c
          (granted-IsSound m.route c.0 token callbacks match found refl)
          (granted-IsDistinct m.route token callbacks match found c.1)

-- The callbacks of the clients do not matter here.
callbacks-IsConsistent :
    (m : RouteState) (callbacks : List (String × WsClientCallbacks))
    → IsConsistent m
    → IsConsistent (record m { route = record m.route { callbacks = callbacks } })
callbacks-IsConsistent m callbacks c =
    moved-IsConsistent m (record m.route { callbacks = callbacks }) c (c.0, same) c.1
  where
    same : Holds (λ t p. true) m.route (record m.route { callbacks = callbacks })
    same t p nothing o h = tt
    same t p (settled reply b) o h = h
    same t p (awaiting n) o h = h

-- Removals begin to wait, and the route is as it was.
waiting-IsConsistent :
    (r r' : WsRoute) (es : List Pending)
    → r' ≡ r
    → IsConsistent (record { route = r; pending = es })
    → IsConsistent (record { route = r'; pending = es })
waiting-IsConsistent r r' es same c =
    subst (λ q. IsConsistent (record { route = q; pending = es })) (sym same) c

step-IsConsistent :
    (m : RouteState) (e : Event) → is_orderly m e ≡ true → IsConsistent m → IsConsistent (step m e)
unfolding on_client_bind on_subscribe on_unsubscribe on_client_disconnect
    remove_client_from_namespace forget_callbacks
step-IsConsistent m (binding token callbacks) o c =
    elim (Bool-cases (is_some (lookup token m.route.callbacks))) [
      | inl e ↦ rw e c
      | inr e ↦ rw e (callbacks-IsConsistent m (set token callbacks m.route.callbacks) c)
    ]
step-IsConsistent m (subscribing token authorized match) o c =
    subscribed-IsConsistent m (lookup token m.route.callbacks) token authorized match c
step-IsConsistent m (granting token callbacks match) o c =
    let found = lookup match.path m.route.namespaces in
    moved-IsConsistent m (subscribe_granted token callbacks match m.route).0 c
      (granted-IsSound m.route c.0 token callbacks match found refl)
      (granted-IsDistinct m.route token callbacks match found c.1)
step-IsConsistent m (unsubscribing token match) o c =
    let found = lookup match.path m.route.namespaces in
    let (same, held) =
      remove_from-deferred m.route c.0 token match.path found refl (ground arith) in
    let result = on_unsubscribe token match m.route in
    waiting-IsConsistent m.route result.0 (pending_of token (match.path, result.1) ∷ m.pending) same
      (
        c.0,
        c.1,
        (held, c.2),
        ground (
          arith,
          c.3,
          all-not (λ e. e.token == token && e.path == match.path) m.pending (ground arith),
        ),
      )
step-IsConsistent m (disconnecting token) o c =
    let paths = paths_of token m.route.subscriptions in
    let (same, held, ps) = remove_from_all-deferred m.route token paths c.0 (ground arith) in
    let removals = (remove_from_all token paths m.route).1 in
    waiting-IsConsistent m.route (remove_from_all token paths m.route).0
      (map (pending_of token) removals ++ m.pending) same
      (
        c.0,
        c.1,
        AllHeld-append m.route (map (pending_of token) removals) m.pending held c.2,
        all_apart-append clash (map (pending_of token) removals) m.pending
            (removals-apart token removals (rw ps (paths_of-apart token m.route.subscriptions c.1)))
            c.3 (removals-others token removals m.pending (ground arith)),
      )
step-IsConsistent m (answering n) o c =
    answered-IsConsistent m (pick n m.pending) c (pick-HeldPicked m.route n m.pending c.2)
      (pick-ApartPicked n m.pending c.3)
step-IsConsistent m (dropping n) o c =
    dropped-IsConsistent m (pick n m.pending) c (pick-HeldPicked m.route n m.pending c.2)
      (pick-ApartPicked n m.pending c.3)
step-IsConsistent m (forgetting token) o c =
    callbacks-IsConsistent m (filter (λ e. not (e.0 == token)) m.route.callbacks) c

fold-IsConsistent :
    (m : RouteState) (es : List Event)
    → all_orderly m es ≡ true
    → IsConsistent m
    → IsConsistent (fold step m es)
fold-IsConsistent m [] o c = c
fold-IsConsistent m (e ∷ es) o c =
    fold-IsConsistent (step m e) es (ground arith) (step-IsConsistent m e (ground arith) c)

-- Whatever clients bind, subscribe, unsubscribe and disconnect, in whatever order, with the answers of
-- the `authorize` and the `unsubscribe` callbacks at any time after, or never: if every client that
-- leaves has an `unsubscribe` callback, and none leaves a path again while its removal from it is
-- pending, then a client is in the namespace of a path exactly where it is subscribed to the path, a
-- namespace is stored under its path, and it has a client.
pub new_route-IsLinked :
    (es : List Event)
    → all_orderly new_routing es ≡ true
    → IsLinked (fold step new_routing es).route
new_route-IsLinked es o =
    (fold-IsConsistent new_routing es o
      (((λ path token. refl, λ path. tt), λ p n e. cc), refl, tt, refl)).0.0
