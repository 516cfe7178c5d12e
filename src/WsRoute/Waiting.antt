-- ===== src/WsRoute/Waiting.antt =====
-- Lists of the removals of websockets/route.ts that wait.
use dyrectorio.Prelude.{
  Bool, Bool-cases, List, Option, String, [], all, any, arith, beq_sym, false, inl, inr, none, not,
  refl, some, string_eq, subst, suc, true, zero, ℕ, ◌&&◌, ◌++◌, ◌==◌, ◌∷◌, ◌≡◌, nat_eq,
}
use dyrectorio.Merge.Ranges.{all_apart, all_apart-append, all_apart-filter}
use dyrectorio.WsRoute.{WsRoute, is_subscription, subscribe_client, unsubscribe_client, paths_of}
use dyrectorio.WsRoute.Pending.{IsHeld, Holds}
use dyrectorio.WsRoute.Steps.{Pending, put_back, pick}

abbrev pub clash : Pending → Pending → Bool
clash x y = y.token == x.token && y.path == x.path

abbrev pub AllHeld : WsRoute → List Pending → Type 0
AllHeld r [] = Unit {0}
AllHeld r (e ∷ es) = IsHeld e.token e.path e.removal r × AllHeld r es

pub AllHeld-append :
    (r : WsRoute) (xs ys : List Pending) → AllHeld r xs → AllHeld r ys → AllHeld r (xs ++ ys)
AllHeld-append r [] ys hx hy = hy
AllHeld-append r (x ∷ xs) ys hx hy = (hx.0, AllHeld-append r xs ys hx.1 hy)

pub AllHeld-Holds :
    (other : String → String → Bool) (r r' : WsRoute) (es : List Pending)
    → Holds other r r'
    → all (λ e. other e.token e.path) es ≡ true
    → AllHeld r es
    → AllHeld r' es
AllHeld-Holds other r r' [] holds o h = tt
AllHeld-Holds other r r' (e ∷ es) holds o h = (
  holds e.token e.path e.removal (ground arith) h.0,
  AllHeld-Holds other r r' es holds (ground arith) h.1,
)

pub all-true : (es : List Pending) → all (λ e. true) es ≡ true
all-true [] = refl
all-true (e ∷ es) = all-true es

pub all-not {ℓ} :
    {A : Type ℓ} (p : A → Bool) (xs : List A) → any p xs ≡ false → all (λ x. not (p x)) xs ≡ true
all-not p [] h = refl
all-not p (x ∷ xs) h = ground (arith, all-not p xs)

-- What is picked, and what is left.
abbrev pub AllPicked : (Pending → Bool) → Option (Pending × List Pending) → Type 0
AllPicked q none = Unit {0}
AllPicked q (some (x, rest)) = (q x ≡ true) × (all q rest ≡ true)

abbrev pub HeldPicked : WsRoute → Option (Pending × List Pending) → Type 0
HeldPicked r none = Unit {0}
HeldPicked r (some (x, rest)) = IsHeld x.token x.path x.removal r × AllHeld r rest

abbrev pub ApartPicked : Option (Pending × List Pending) → Type 0
ApartPicked none = Unit {0}
ApartPicked (some (x, rest)) =
    (all (λ y. not (clash x y)) rest ≡ true) × (all_apart clash rest ≡ true)

put_back-AllPicked :
    (q : Pending → Bool) (e : Pending) (found : Option (Pending × List Pending))
    → q e ≡ true
    → AllPicked q found
    → AllPicked q (put_back e found)
put_back-AllPicked q e none h k = tt
put_back-AllPicked q e (some (x, rest)) h k = (k.0, ground (arith, h, k.1))

pick-AllPicked :
    (q : Pending → Bool) (n : ℕ) (es : List Pending) → all q es ≡ true → AllPicked q (pick n es)
pick-AllPicked q zero [] h = tt
pick-AllPicked q (suc n) [] h = tt
pick-AllPicked q zero (e ∷ es) h = ground arith
pick-AllPicked q (suc n) (e ∷ es) h =
    put_back-AllPicked q e (pick n es) (ground arith) (pick-AllPicked q n es (ground arith))

put_back-HeldPicked :
    (r : WsRoute) (e : Pending) (found : Option (Pending × List Pending))
    → IsHeld e.token e.path e.removal r
    → HeldPicked r found
    → HeldPicked r (put_back e found)
put_back-HeldPicked r e none h k = tt
put_back-HeldPicked r e (some (x, rest)) h k = (k.0, (h, k.1))

pub pick-HeldPicked :
    (r : WsRoute) (n : ℕ) (es : List Pending) → AllHeld r es → HeldPicked r (pick n es)
pick-HeldPicked r zero [] h = tt
pick-HeldPicked r (suc n) [] h = tt
pick-HeldPicked r zero (e ∷ es) h = h
pick-HeldPicked r (suc n) (e ∷ es) h =
    put_back-HeldPicked r e (pick n es) h.0 (pick-HeldPicked r n es h.1)

put_back-ApartPicked :
    (e : Pending) (found : Option (Pending × List Pending))
    → AllPicked (λ y. not (clash e y)) found
    → ApartPicked found
    → ApartPicked (put_back e found)
put_back-ApartPicked e none h k = tt
put_back-ApartPicked e (some (x, rest)) h k = (
  ground (arith, h.0, k.0, beq_sym e.token x.token, beq_sym e.path x.path),
  ground (arith, h.1, k.1),
)

pub pick-ApartPicked :
    (n : ℕ) (es : List Pending) → all_apart clash es ≡ true → ApartPicked (pick n es)
pick-ApartPicked zero [] h = tt
pick-ApartPicked (suc n) [] h = tt
pick-ApartPicked zero (e ∷ es) h = ground arith
pick-ApartPicked (suc n) (e ∷ es) h =
    put_back-ApartPicked e (pick n es) (pick-AllPicked (λ y. not (clash e y)) n es (ground arith))
      (pick-ApartPicked n es (ground arith))

-- A client has one subscription to a path.
abbrev pub same_subscription : String × String → String × String → Bool
same_subscription e f = is_subscription e.0 e.1 f

abbrev pub IsDistinct : List (String × String) → Type 0
IsDistinct s = all_apart same_subscription s ≡ true

all_last :
    (token path : String) (s : List (String × String))
    → any (is_subscription token path) s ≡ false
    → all (λ x. all (λ y. not (same_subscription x y)) ((token, path) ∷ [])) s ≡ true
all_last token path [] h = refl
all_last token path (e ∷ s) h =
    ground (arith, all_last token path s, beq_sym e.0 token, beq_sym e.1 path)

pub subscribe_client-IsDistinct :
    (token path : String) (s : List (String × String))
    → IsDistinct s
    → IsDistinct (subscribe_client token path s)
subscribe_client-IsDistinct token path s h =
    elim (Bool-cases (any (is_subscription token path) s)) [
      | inl there ↦ rw there h
      | inr missing ↦ rw missing (
          all_apart-append same_subscription s ((token, path) ∷ []) h refl
            (all_last token path s missing))
    ]

pub unsubscribe_client-IsDistinct :
    (token path : String) (s : List (String × String))
    → IsDistinct s
    → IsDistinct (unsubscribe_client token path s)
unsubscribe_client-IsDistinct token path s h = all_apart-filter same_subscription _ s h

all-paths_of :
    (token path : String) (s : List (String × String))
    → all (λ y. not (same_subscription (token, path) y)) s ≡ true
    → all (λ y. not (path == y)) (paths_of token s) ≡ true
all-paths_of token path [] h = refl
all-paths_of token path (e ∷ s) h = ground (arith, all-paths_of token path s, beq_sym path e.1)

pub paths_of-apart :
    (token : String) (s : List (String × String))
    → IsDistinct s
    → all_apart (λ p q. p == q) (paths_of token s) ≡ true
paths_of-apart token [] h = refl
paths_of-apart token (e ∷ s) h = elim (Bool-cases (e.0 == token)) [
  | inl here ↦
      let same : e.0 ≡ token = (string_eq.beq_iff e.0 token).0 here in
      let apart : all (λ y. not (same_subscription (token, e.1) y)) s ≡ true =
        subst (λ t. all (λ y. not (same_subscription (t, e.1) y)) s ≡ true) same (ground arith) in
      rw (here, all-paths_of token e.1 s apart) (paths_of-apart token s (ground arith))
  | inr other ↦ rw other (paths_of-apart token s (ground arith))
]
