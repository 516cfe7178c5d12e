-- ===== src/BufferedSubject/Order.antt =====
-- Nothing that is sent through a BufferedSubject of domain/utils.ts is lost or overtaken.
use dyrectorio.Prelude.{
  Bool, true, false, List, [], ◌∷◌, ◌++◌, fold, append_assoc, append-nil, ◌≡◌, refl, sym, ◌∙◌, ap,
}
use dyrectorio.BufferedSubject.{BufferedSubject, new_subject, next, subscribe, unobserved}

pub data Call (T : Type 0) : Type 0 where
  sending : T → Call T
  subscribing unsubscribing : Call T

module _ {T : Type 0} where
  abbrev pub call : BufferedSubject T → Call T → BufferedSubject T
  call s (sending value) = next s value
  call s subscribing = subscribe s
  call s unsubscribing = unobserved s

  -- The values of the calls, in order.
  abbrev pub values : List (Call T) → List T
  values [] = []
  values (sending value ∷ cs) = value ∷ values cs
  values (subscribing ∷ cs) = values cs
  values (unsubscribing ∷ cs) = values cs

  -- While somebody listens, nothing is buffered.
  abbrev pub IsDrained : BufferedSubject T → Type 0
  IsDrained s = s.observed ≡ true → s.buffer ≡ []

  next-values :
      (observed : Bool) (buffer sent : List T) (value : T)
      → let s : BufferedSubject T = record { observed = observed; buffer = buffer; sent = sent } in
        IsDrained s
        → ((next s value).sent ++ (next s value).buffer ≡ (sent ++ buffer) ++ value ∷ [])
          × IsDrained (next s value)
  unfolding next
  next-values true buffer sent value h = (rw (h refl) (simp append-nil), λ e. h refl)
  next-values false buffer sent value h = (sym (append_assoc sent buffer (value ∷ [])), λ e. cc)

  fold-call :
      (s : BufferedSubject T) (cs : List (Call T))
      → IsDrained s
      → ((fold call s cs).sent ++ (fold call s cs).buffer ≡ (s.sent ++ s.buffer) ++ values cs)
        × IsDrained (fold call s cs)
  unfolding subscribe unobserved
  fold-call s [] h = (sym (append-nil _), h)
  fold-call s (sending value ∷ cs) h =
      let one = next-values s.observed s.buffer s.sent value h in
      let ih = fold-call (next s value) cs one.1 in
      (ih.0 ∙ rw one.0 (append_assoc (s.sent ++ s.buffer) (value ∷ []) (values cs)), ih.1)
  fold-call s (subscribing ∷ cs) h =
      let ih = fold-call (subscribe s) cs (λ e. refl) in
      (ih.0 ∙ ap (λ l. l ++ values cs) (append-nil (s.sent ++ s.buffer)), ih.1)
  fold-call s (unsubscribing ∷ cs) h = fold-call (unobserved s) cs (λ e. cc)

  -- Whatever is sent, and whenever listeners come and go, the values that a new subject passed on and
  -- those that it holds back are, in this order, exactly the values sent, in the order of sending.
  pub new_subject-values :
      (cs : List (Call T))
      → (fold call new_subject cs).sent ++ (fold call new_subject cs).buffer ≡ values cs
  new_subject-values cs = (fold-call new_subject cs (λ e. refl)).0

  -- Once somebody listens, nothing is held back: all values sent so far were passed on in order.
  pub new_subject-observed :
      (cs : List (Call T))
      → (fold call new_subject cs).observed ≡ true
      → (fold call new_subject cs).sent ≡ values cs
  new_subject-observed cs h =
      let ih = fold-call new_subject cs (λ e. refl) in
      sym (append-nil _) ∙ ap (λ l. (fold call new_subject cs).sent ++ l) (sym (ih.1 h)) ∙ ih.0
