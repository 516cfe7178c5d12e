-- ===== src/WsRoute/Subscribed.antt =====
-- What the subscriptions and the namespaces of websockets/route.ts say of a client and a path.
use dyrectorio.Prelude.{
  refl, any-append, or-false, Bool-cases, inl, inr, ◌∙◌, arith, string_eq, [], Bool, List, Option,
  String, any, false, is_some, lookup, none, not, some, ◌&&◌, ◌==◌, ◌||◌, ◌≡◌, string_eq, nat_eq,
  ◌∷◌,
}
use dyrectorio.WsRoute.{WsNamespace, is_subscription, subscribe_client, unsubscribe_client}

abbrev pub is_subscribed : String → String → List (String × String) → Bool
is_subscribed token path subscriptions = any (is_subscription token path) subscriptions

abbrev pub has_client : String → Option WsNamespace → Bool
has_client token none = false
has_client token (some ns) = is_some (lookup token ns.clients)

pub is_subscribed-subscribe_client :
    (t p token path : String) (s : List (String × String))
    → is_subscribed t p (subscribe_client token path s)
      ≡ (is_subscribed t p s || (token == t && path == p))
is_subscribed-subscribe_client t p token path s = elim (Bool-cases (is_subscribed token path s)) [
  | inl there ↦
      rw there (ground (arith, there, string_eq.beq_iff token t, string_eq.beq_iff path p))
  | inr missing ↦ rw missing (
      any-append (is_subscription t p) s ((token, path) ∷ [])
      ∙ ground (arith, or-false (token == t && path == p)))
]

pub is_subscribed-unsubscribe_client :
    (t p token path : String) (s : List (String × String))
    → is_subscribed t p (unsubscribe_client token path s)
      ≡ (is_subscribed t p s && not (token == t && path == p))
is_subscribed-unsubscribe_client t p token path [] = refl
is_subscribed-unsubscribe_client t p token path (e ∷ s) = ground (
  arith,
  is_subscribed-unsubscribe_client t p token path s,
  string_eq.beq_iff e.0 token,
  string_eq.beq_iff e.0 t,
  string_eq.beq_iff e.1 path,
  string_eq.beq_iff e.1 p,
  string_eq.beq_iff token t,
  string_eq.beq_iff path p,
)
