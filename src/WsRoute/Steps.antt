-- ===== src/WsRoute/Steps.antt =====
-- All that can happen to a route of websockets/route.ts, one call or one answer a step.
use dyrectorio.Prelude.{
  Bool, List, Option, String, [], all, any, false, map, none, not, some, suc, true, zero, ℕ, ◌&&◌,
  ◌++◌, ◌==◌, ◌∷◌, string_eq, nat_eq,
}
use dyrectorio.WsRoute.{
  WsRoute, WsRouteMatch, WsClientCallbacks, WsReply, Removal, nothing, settled, awaiting, new_route,
  subscribe_granted, on_subscribe, on_unsubscribe, emit, on_client_bind, on_client_disconnect,
  forget_callbacks,
}

-- A stream of a removal that has no result yet.
pub record Pending : Type 0 where
  pub token : String
  pub path : String
  pub removal : Removal

pub record RouteState : Type 0 where
  pub route : WsRoute
  pub pending : List Pending

abbrev pub new_routing : RouteState
new_routing = record { route = new_route; pending = [] }

-- A call of a method of a route. `granting` is the part of `onSubscribe` behind an answer of
-- `authorize` that grants the subscription, with the callbacks that were read before. `answering` is
-- the result of one of the pending removals, and `dropping` the end of one without a result, as that
-- of a message whose client closes. `forgetting` is the end of the combined streams.
pub data Event : Type 0 where
  binding : String → WsClientCallbacks → Event
  subscribing : String → Bool → WsRouteMatch → Event
  granting : String → WsClientCallbacks → WsRouteMatch → Event
  unsubscribing : String → WsRouteMatch → Event
  disconnecting : String → Event
  answering dropping : ℕ → Event
  forgetting : String → Event

abbrev pub put_back : Pending → Option (Pending × List Pending) → Option (Pending × List Pending)
put_back e none = none
put_back e (some (x, rest)) = some (x, e ∷ rest)

-- A pending removal by its place, and the others.
abbrev pub pick : ℕ → List Pending → Option (Pending × List Pending)
pick n [] = none
pick zero (e ∷ es) = some (e, es)
pick (suc n) (e ∷ es) = put_back e (pick n es)

abbrev pub or_unchanged : WsRoute → Option WsRoute → WsRoute
or_unchanged r none = r
or_unchanged r (some r') = r'

abbrev pub after_call : WsRoute → Option (WsRoute × Option WsReply) → WsRoute
after_call r none = r
after_call r (some result) = result.0

abbrev pub pending_of : String → String × Removal → Pending
pending_of token (path, removal) = record { token = token; path = path; removal = removal }

abbrev pub answered : RouteState → Option (Pending × List Pending) → RouteState
answered m none = m
answered m (some (e, rest)) = record {
  route = (emit e.token e.path e.removal m.route).0;
  pending = rest;
}

abbrev pub dropped : RouteState → Option (Pending × List Pending) → RouteState
dropped m none = m
dropped m (some (e, rest)) = record m { pending = rest }

-- A call that throws leaves the route as it is.
abbrev pub step : RouteState → Event → RouteState
step m (binding token callbacks) = record m {
  route = or_unchanged m.route (on_client_bind token callbacks m.route);
}
step m (subscribing token authorized match) = record m {
  route = after_call m.route (on_subscribe token authorized match m.route);
}
step m (granting token callbacks match) = record m {
  route = (subscribe_granted token callbacks match m.route).0;
}
step m (unsubscribing token match) =
    let (r, removal) = on_unsubscribe token match m.route in
    record { route = r; pending = pending_of token (match.path, removal) ∷ m.pending }
step m (disconnecting token) =
    let (r, removals) = on_client_disconnect token m.route in
    record { route = r; pending = map (pending_of token) removals ++ m.pending }
step m (answering n) = answered m (pick n m.pending)
step m (dropping n) = dropped m (pick n m.pending)
step m (forgetting token) = record m { route = forget_callbacks token m.route }

-- The client was not removed yet: it is not there, or its `unsubscribe` callback has to answer.
abbrev pub is_deferred : Removal → Bool
is_deferred nothing = true
is_deferred (settled none should_remove) = true
is_deferred (settled (some reply) should_remove) = false
is_deferred (awaiting n) = true

-- A client that leaves has an `unsubscribe` callback where it is, and no removal of it from the same
-- path is pending.
abbrev pub is_orderly : RouteState → Event → Bool
is_orderly m (unsubscribing token match) =
    is_deferred (on_unsubscribe token match m.route).1
    && not (any (λ e. e.token == token && e.path == match.path) m.pending)
is_orderly m (disconnecting token) =
    all (λ e. is_deferred e.1) (on_client_disconnect token m.route).1
    && not (any (λ e. e.token == token) m.pending)
is_orderly m e = true

abbrev pub all_orderly : RouteState → List Event → Bool
all_orderly m [] = true
all_orderly m (e ∷ es) = is_orderly m e && all_orderly (step m e) es
