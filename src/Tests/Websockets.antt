-- ===== src/Tests/Websockets.antt =====
-- Clients of a websocket route.
use dyrectorio.Prelude.{List, [], false, fold, includes_char, none, refl, some, true, ◌∷◌, ◌≡◌}
use dyrectorio.WsRoute.{
  WsRouteMatch, WsClientCallbacks, on_client_bind, on_subscribe, on_unsubscribe,
  on_client_disconnect, emit, forget_callbacks,
}
use dyrectorio.WsRoute.Subscribed.{is_subscribed}
use dyrectorio.WsRoute.Sound.{IsLinked, namespace_at}
use dyrectorio.WsRoute.Steps.{
  Event, binding, subscribing, granting, unsubscribing, disconnecting, answering, forgetting, step,
  new_routing, all_orderly,
}
use dyrectorio.WsPath.{Matcher, parameter, literal, route_matchers, matches, path_from_parts}
use dyrectorio.WsPath.Filled.{matches-filled}
use dyrectorio.WsRoute.Linked.{new_route-IsLinked}

abbrev team : WsRouteMatch
team = record { path = "/team"; params = [] }

abbrev editor_callbacks : WsClientCallbacks
editor_callbacks = record {
  authorize = some "authorize";
  subscribe = some "subscribe";
  unsubscribe = some "unsubscribe";
  handlers = [];
}

-- Both clients leave, and another one comes before the answers.
abbrev clients : List Event
clients =
    binding "a" editor_callbacks
    ∷ binding "b" editor_callbacks
    ∷ binding "c" editor_callbacks
    ∷ subscribing "a" true team
    ∷ granting "b" editor_callbacks team
    ∷ subscribing "b" true team
    ∷ unsubscribing "a" team
    ∷ disconnecting "b"
    ∷ subscribing "c" true team
    ∷ answering 1
    ∷ answering 0
    ∷ forgetting "b"
    ∷ []

new_route-IsLinked_example : IsLinked (fold step new_routing clients).route
unfolding on_client_bind on_subscribe on_unsubscribe on_client_disconnect emit forget_callbacks
new_route-IsLinked_example = new_route-IsLinked clients refl

-- One namespace is left, with one client.
clients_test :
    namespace_at (fold step new_routing clients).route "/team"
    ≡ some (record { path = "/team"; params = []; clients = ("c", editor_callbacks) ∷ [] })
unfolding on_client_bind on_subscribe on_unsubscribe on_client_disconnect emit forget_callbacks
clients_test = refl

-- A client unsubscribes twice before the first answer, and another one subscribes before the second:
-- the second answer removes the namespace of the other client, which stays subscribed.
abbrev twice : List Event
twice =
    binding "a" editor_callbacks
    ∷ binding "b" editor_callbacks
    ∷ subscribing "a" true team
    ∷ unsubscribing "a" team
    ∷ unsubscribing "a" team
    ∷ answering 0
    ∷ subscribing "b" true team
    ∷ answering 0
    ∷ []

twice_test :
    (all_orderly new_routing twice ≡ false)
    × (namespace_at (fold step new_routing twice).route "/team" ≡ none)
    × (is_subscribed "b" "/team" (fold step new_routing twice).route.subscriptions ≡ true)
unfolding on_client_bind on_subscribe on_unsubscribe emit
twice_test = (refl, refl, refl)

-- A client without a subscription has no combined streams, whose end would remove its callbacks.
callbacks_stay_test :
    (on_client_disconnect "a" (fold step new_routing (binding "a" editor_callbacks ∷ [])).route).1
    ≡ []
unfolding on_client_bind on_client_disconnect
callbacks_stay_test = refl

abbrev node_route : List Matcher
node_route = parameter "teamSlug" ∷ literal "nodes" ∷ parameter "nodeId" ∷ []

matches-filled_example :
    matches node_route (path_from_parts ("acme" ∷ "nodes" ∷ "n1" ∷ []))
    ≡ some (record {
      path = path_from_parts ("acme" ∷ "nodes" ∷ "n1" ∷ []);
      params = ("teamSlug", "acme") ∷ ("nodeId", "n1") ∷ [];
    })
unfolding includes_char
matches-filled_example = matches-filled node_route ("acme" ∷ "n1" ∷ []) refl refl

route_matchers_test : route_matchers "/:teamSlug/nodes/:nodeId" ≡ some node_route
unfolding route_matchers
route_matchers_test = refl

matches_test :
    matches node_route "/acme/nodes/n1/"
    ≡ some
        (record { path = "/acme/nodes/n1"; params = ("teamSlug", "acme") ∷ ("nodeId", "n1") ∷ [] })
unfolding matches
matches_test = refl
