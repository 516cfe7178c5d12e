-- ===== src/WsRoute/Deferred.antt =====
-- Removals of websockets/route.ts that wait for an `unsubscribe` callback.
use dyrectorio.Prelude.{
  Bool-cases, List, Option, String, [], all, any, ap, arith, beq_refl, beq_sym, false, inl, inr,
  is_some, lookup, map, none, not, refl, some, subst, sym, true, ℕ, ◌&&◌, ◌==◌, ◌∷◌, ◌≡◌, string_eq,
  nat_eq,
}
use dyrectorio.Merge.Ranges.{all_apart}
use dyrectorio.WsRoute.{
  WsRoute, WsClientCallbacks, Removal, unsubscribe_with, remove_from, remove_client_from_namespace,
  remove_from_all,
}
use dyrectorio.WsRoute.Sound.{IsSound, stored-IsKept}
use dyrectorio.WsRoute.Pending.{IsHeld}
use dyrectorio.WsRoute.Steps.{Pending, pending_of, is_deferred}
use dyrectorio.WsRoute.Waiting.{clash, AllHeld}

module _ (r : WsRoute) (sound : IsSound r) (token : String) where
  -- A removal that is deferred changes nothing yet.
  unsubscribe_with-deferred :
      (path : String) (n : ℕ) (found : Option WsClientCallbacks)
      → lookup path r.namespaces ≡ some n
      → lookup token (r.objects n).clients ≡ found
      → is_deferred (unsubscribe_with found token n r).1 ≡ true
      → ((unsubscribe_with found token n r).0 ≡ r)
        × IsHeld token path (unsubscribe_with found token n r).1 r
  unsubscribe_with-deferred path n none e f h =
      (refl, ground (arith, (stored-IsKept r sound path n e).1))
  unsubscribe_with-deferred path n (some resources) e f h =
      elim (Bool-cases (is_some resources.unsubscribe)) [
        | inl there ↦ rw there (refl, (e, rw f refl))
        | inr missing ↦ ground (arith, h, missing)
      ]

  pub remove_from-deferred :
      (path : String) (found : Option ℕ)
      → lookup path r.namespaces ≡ found
      → is_deferred (remove_from token found r).1 ≡ true
      → ((remove_from token found r).0 ≡ r) × IsHeld token path (remove_from token found r).1 r
  remove_from-deferred path none e h = (refl, tt)
  remove_from-deferred path (some n) e h =
      unsubscribe_with-deferred path n (lookup token (r.objects n).clients) e refl h

-- The streams that are combined for a client that disconnects.
pub remove_from_all-deferred :
    (r : WsRoute) (token : String) (paths : List String)
    → IsSound r
    → all (λ e. is_deferred e.1) (remove_from_all token paths r).1 ≡ true
    → ((remove_from_all token paths r).0 ≡ r)
      × AllHeld r (map (pending_of token) (remove_from_all token paths r).1)
      × (map (λ e. e.0) (remove_from_all token paths r).1 ≡ paths)
unfolding remove_client_from_namespace
remove_from_all-deferred r token [] sound h = (refl, tt, refl)
remove_from_all-deferred r token (path ∷ paths) sound h =
    let first =
      remove_from-deferred r sound token path (lookup path r.namespaces) refl (ground arith) in
    let later =
      subst
        (λ q.
          all (λ e. is_deferred e.1) (remove_from_all token paths q).1 ≡ true
          → ((remove_from_all token paths q).0 ≡ r)
            × AllHeld r (map (pending_of token) (remove_from_all token paths q).1)
            × (map (λ e. e.0) (remove_from_all token paths q).1 ≡ paths))
        (sym first.0) (remove_from_all-deferred r token paths sound) (ground arith) in
    (later.0, (first.1, later.1), ap (λ ps. path ∷ ps) later.2)

all-token :
    (token path : String) (removal : Removal) (removals : List (String × Removal))
    → all (λ y. not (path == y)) (map (λ e. e.0) removals) ≡ true
    → all (λ y. not (clash (pending_of token (path, removal)) y)) (map (pending_of token) removals)
      ≡ true
all-token token path removal [] h = refl
all-token token path removal ((p, x) ∷ removals) h =
    ground (arith, all-token token path removal removals, beq_sym path p, beq_refl token)

pub removals-apart :
    (token : String) (removals : List (String × Removal))
    → all_apart (λ p q. p == q) (map (λ e. e.0) removals) ≡ true
    → all_apart clash (map (pending_of token) removals) ≡ true
removals-apart token [] h = refl
removals-apart token ((p, x) ∷ removals) h =
    rw (all-token token p x removals (ground arith)) (removals-apart token removals (ground arith))

none_of_token :
    (token path : String) (es : List Pending)
    → any (λ e. e.token == token) es ≡ false
    → all (λ e. not (e.token == token && e.path == path)) es ≡ true
none_of_token token path [] h = refl
none_of_token token path (e ∷ es) h = ground (arith, none_of_token token path es)

pub removals-others :
    (token : String) (removals : List (String × Removal)) (es : List Pending)
    → any (λ e. e.token == token) es ≡ false
    → all (λ x. all (λ y. not (clash x y)) es) (map (pending_of token) removals) ≡ true
removals-others token [] es h = refl
removals-others token ((p, x) ∷ removals) es h =
    rw (none_of_token token p es h) (removals-others token removals es h)
