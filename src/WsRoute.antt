-- ===== src/WsRoute.antt =====
-- websockets/route.ts and websockets/namespace.ts: the clients of a route, which subscribe to paths.
-- `subscriptions` has the maps of the client objects, as pairs of a token and a path of this route.
-- Namespaces are objects: `namespaces` has their numbers, since a namespace that was deleted can still
-- wait for the answer of an `unsubscribe` callback. The answer of the `authorize` callback is an
-- argument. What is returned to a client is its message, or `none` where nothing is sent.
pub mod Subscribed
pub mod Kept
pub mod Sound
pub mod Steps
pub mod Pending
pub mod Waiting
pub mod Deferred
pub mod Linked
use Prim.Native.String
use dyrectorio.Prelude.{
  Bool, List, Option, String, [], all, any, filter, if◌then◌else◌, ℕ, is_some, length, lookup, ltb,
  map, none, not, set, some, ◌&&◌, ◌++◌, ◌+◌, ◌-◌, ◌==◌, ◌||◌, ◌∷◌, string_eq, nat_eq,
}

pub record WsRouteMatch : Type 0 where
  pub path : String
  pub params : List (String × String)

-- Callbacks are named by texts, by which they can be told apart.
pub record WsClientCallbacks : Type 0 where
  pub authorize : Option String
  pub subscribe : Option String
  pub unsubscribe : Option String
  pub handlers : List (String × String)

pub record WsNamespace : Type 0 where
  pub path : String
  pub params : List (String × String)
  pub clients : List (String × WsClientCallbacks)

pub record WsRoute : Type 0 where
  pub namespaces : List (String × ℕ)
  pub objects : ℕ → WsNamespace
  pub next_object : ℕ
  pub callbacks : List (String × WsClientCallbacks)
  pub subscriptions : List (String × String)

pub data WsReply : Type 0 where
  subbed sub_failed unsubbed : String → WsReply

abbrev pub new_route : WsRoute
new_route = record {
  namespaces = [];
  objects = λ n. record { path = ""; params = []; clients = [] };
  next_object = 0;
  callbacks = [];
  subscriptions = [];
}

abbrev pub store_object : ℕ → WsNamespace → (ℕ → WsNamespace) → ℕ → WsNamespace
store_object n ns objects m = if m == n then ns else objects m

abbrev pub is_subscription : String → String → String × String → Bool
is_subscription token path e = e.0 == token && e.1 == path

-- `client.subscriptions.set(path, …)`
abbrev pub subscribe_client : String → String → List (String × String) → List (String × String)
subscribe_client token path subscriptions =
    if any (is_subscription token path) subscriptions
    then subscriptions
    else subscriptions ++ (token, path) ∷ []

-- `client.subscriptions.delete(path)`
abbrev pub unsubscribe_client : String → String → List (String × String) → List (String × String)
unsubscribe_client token path subscriptions =
    filter (λ e. not (is_subscription token path e)) subscriptions

abbrev pub new_namespace : WsRouteMatch → WsNamespace
new_namespace match = record { path = match.path; params = match.params; clients = [] }

-- The route, and the number of the namespace of the path.
abbrev pub upsert_namespace : WsRouteMatch → Option ℕ → WsRoute → WsRoute × ℕ
upsert_namespace match (some n) r = (r, n)
upsert_namespace match none r = (
  record r {
    namespaces = set match.path r.next_object r.namespaces;
    objects = store_object r.next_object (new_namespace match) r.objects;
    next_object = r.next_object + 1;
  },
  r.next_object,
)

-- `WsNamespace.onSubscribe`
abbrev pub subscribe_in : String → WsClientCallbacks → WsRoute × ℕ → WsRoute × Option WsReply
subscribe_in token callbacks (r, n) =
    let ns = r.objects n in
    if is_some (lookup token ns.clients) then (r, none) else (
      record r {
        objects = store_object n (record ns { clients = set token callbacks ns.clients }) r.objects;
        subscriptions = subscribe_client token ns.path r.subscriptions;
      },
      some (subbed ns.path),
    )

-- What `onSubscribe` does when `authorize` has granted the subscription.
abbrev pub subscribe_granted :
    String → WsClientCallbacks → WsRouteMatch → WsRoute → WsRoute × Option WsReply
subscribe_granted token callbacks match r =
    subscribe_in token callbacks (upsert_namespace match (lookup match.path r.namespaces) r)

abbrev pub subscribe_with :
    Option WsClientCallbacks
    → String
    → Bool
    → WsRouteMatch
    → WsRoute
    → Option (WsRoute × Option WsReply)
subscribe_with none token authorized match r = none
subscribe_with (some callbacks) token authorized match r =
    if not (is_some callbacks.authorize)
    then none
    else if not authorized
    then some (r, some (sub_failed match.path))
    else some (subscribe_granted token callbacks match r)

-- `none` is the exception of a client that is not bound, or has no authorize callback.
unfoldable pub on_subscribe :
    String → Bool → WsRouteMatch → WsRoute → Option (WsRoute × Option WsReply)
on_subscribe token authorized match r =
    subscribe_with (lookup token r.callbacks) token authorized match r

-- The stream of a removal: the empty one, one with a result (what is sent, and whether the namespace
-- should be removed), or one that waits for the `unsubscribe` callback of a client of a namespace.
pub data Removal : Type 0 where
  nothing : Removal
  settled : Option WsReply → Bool → Removal
  awaiting : ℕ → Removal

abbrev pub clients_without : String → WsNamespace → List (String × WsClientCallbacks)
clients_without token ns = filter (λ e. not (e.0 == token)) ns.clients

-- The client leaves the namespace; whether the namespace should be removed then.
abbrev pub leave : String → ℕ → WsRoute → WsRoute × Bool
leave token n r =
    let ns = r.objects n in
    let left = clients_without token ns in
    (
      record r {
        objects = store_object n (record ns { clients = left }) r.objects;
        subscriptions = unsubscribe_client token ns.path r.subscriptions;
      },
      ltb (length left) 1,
    )

abbrev pub settle : Option WsReply → WsRoute × Bool → WsRoute × Removal
settle reply (r, should_remove) = (r, settled reply should_remove)

abbrev pub unsubscribe_with : Option WsClientCallbacks → String → ℕ → WsRoute → WsRoute × Removal
unsubscribe_with none token n r = (r, settled none (ltb (length (r.objects n).clients) 1))
unsubscribe_with (some resources) token n r =
    if is_some resources.unsubscribe
    then (r, awaiting n)
    else settle (some (unsubbed (r.objects n).path)) (leave token n r)

-- `WsNamespace.onUnsubscribe`, of the namespace that is stored.
abbrev pub remove_from : String → Option ℕ → WsRoute → WsRoute × Removal
remove_from token none r = (r, nothing)
remove_from token (some n) r = unsubscribe_with (lookup token (r.objects n).clients) token n r

unfoldable pub remove_client_from_namespace : String → String → WsRoute → WsRoute × Removal
remove_client_from_namespace token path r = remove_from token (lookup path r.namespaces) r

unfoldable pub on_unsubscribe : String → WsRouteMatch → WsRoute → WsRoute × Removal
unfolding remove_client_from_namespace
on_unsubscribe token match r = remove_client_from_namespace token match.path r

-- The namespace that is stored under the path when the stream has its result.
abbrev pub remove_if : String → WsRoute × Bool → WsRoute
remove_if path (r, should_remove) =
    if should_remove
    then record r { namespaces = filter (λ e. not (e.0 == path)) r.namespaces }
    else r

-- The stream of a removal of a client from a path has its result.
unfoldable pub emit : String → String → Removal → WsRoute → WsRoute × Option WsReply
emit token path nothing r = (r, none)
emit token path (settled reply should_remove) r = (remove_if path (r, should_remove), reply)
emit token path (awaiting n) r =
    (remove_if path (leave token n r), some (unsubbed (r.objects n).path))

-- `none` is the exception of a client that is bound already.
unfoldable pub on_client_bind : String → WsClientCallbacks → WsRoute → Option WsRoute
on_client_bind token callbacks r =
    if is_some (lookup token r.callbacks)
    then none
    else some (record r { callbacks = set token callbacks r.callbacks })

abbrev pub paths_of : String → List (String × String) → List String
paths_of token subscriptions = map (λ e. e.1) (filter (λ e. e.0 == token) subscriptions)

abbrev pub remove_from_all : String → List String → WsRoute → WsRoute × List (String × Removal)
remove_from_all token [] r = (r, [])
remove_from_all token (path ∷ paths) r =
    let (r', removal) = remove_client_from_namespace token path r in
    let (left, removals) = remove_from_all token paths r' in (left, (path, removal) ∷ removals)

-- The streams that are combined, one for each path of this route.
unfoldable pub on_client_disconnect : String → WsRoute → WsRoute × List (String × Removal)
unfolding remove_client_from_namespace
on_client_disconnect token r = remove_from_all token (paths_of token r.subscriptions) r

-- When all the combined streams have a result.
unfoldable pub forget_callbacks : String → WsRoute → WsRoute
forget_callbacks token r = record r { callbacks = filter (λ e. not (e.0 == token)) r.callbacks }

-- `close`, with the `close` of each namespace.
unfoldable pub close_route : WsRoute → WsRoute
close_route r = record {
  namespaces = [];
  objects = λ m.
      if any (λ e. e.1 == m) r.namespaces
      then record (r.objects m) { clients = [] }
      else r.objects m;
  next_object = r.next_object;
  callbacks = [];
  subscriptions =
      filter
        (λ e. not (
          any (λ n. (r.objects n.1).path == e.1 && is_some (lookup e.0 (r.objects n.1).clients))
            r.namespaces))
        r.subscriptions;
}

-- The tokens that `sendToAllExcept` of a namespace sends a message to, and with what type.
unfoldable pub send_to_all_except : String → String → WsNamespace → List (String × String)
send_to_all_except except type ns =
    map (λ e. (e.0, String.◌++◌ ns.path (String.◌++◌ "/" type)))
      (filter (λ e. not (e.0 == except)) ns.clients)
