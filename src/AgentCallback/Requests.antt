-- ===== src/AgentCallback/Requests.antt =====
-- Who hears the answer to a request of domain/agent-callback.ts.
use dyrectorio.Prelude.{
  refl, [], ◌∷◌, ◌==◌, arith, string_eq, List, Option, ◌or_else◌, if◌then◌else◌, fold, any, lookup,
  ◌≡◌, false, ◌∙◌, Option-cases, beq_refl, lookup-filter, ◌<◌, get_or, inl, beq_sym, lookup-set,
  inr, is_some,
}
use dyrectorio.AgentCallback.{
  AgentCallback, fetch, String, AgentCommand, List, finished, ℕ, Bool, Option, none, lookup, some,
  on_response, not, on_error, AgentError, watch, command, error_complete, response_next,
  response_complete, error_next, fetch_with, new_callback,
}

-- A call of a method, or of the function given to `finalize`. Answers do not change the state.
pub data Call (Req : Type 0) : Type 0 where
  fetching : Req → Call Req
  finishing : String → Call Req

module _ {Req : Type 0} (key_and_command_of : Req → String × AgentCommand) where
  abbrev pub request_key : Req → String
  request_key req = (key_and_command_of req).0

  abbrev pub call : AgentCallback → Call Req → AgentCallback
  call s (fetching req) = (fetch key_and_command_of req s).0
  call s (finishing key) = finished key s

  abbrev pub finishes : String → Call Req → Bool
  finishes key (fetching req) = false
  finishes key (finishing k) = k == key

  abbrev pub fetches : String → Call Req → Bool
  fetches key (fetching req) = request_key req == key
  fetches key (finishing k) = false

  -- The request that an awaiting fetch of the key would share.
  abbrev pub running : String → AgentCallback → Option ℕ
  running key s = lookup key s.requests

  running-fetch_with :
      (key k : String) (c : AgentCommand) (s : AgentCallback) (found : Option ℕ)
      → running k s ≡ found
      → running key (fetch_with found k c s).0
        ≡ (running key s or_else (if k == key then some s.next_request else none))
  running-fetch_with key k c s none h =
      lookup-set k key s.next_request s.requests ∙ ground (arith, string_eq.beq_iff k key)
  running-fetch_with key k c s (some id) h = ground (arith, string_eq.beq_iff k key)

  running-fetch :
      (key : String) (req : Req) (s : AgentCallback)
      → running key (call s (fetching req))
        ≡ (running key s or_else (if request_key req == key then some s.next_request else none))
  unfolding fetch
  running-fetch key req s =
      running-fetch_with key (request_key req) (key_and_command_of req).1 s
        (running (request_key req) s) refl

  running-finished :
      (key k : String) (s : AgentCallback)
      → running key (finished k s) ≡ (if k == key then none else running key s)
  unfolding finished
  running-finished key k s =
      lookup-filter (λ j. not (j == k)) key s.requests ∙ ground (arith, beq_sym key k)

  running-kept :
      (key : String) (id : ℕ) (s : AgentCallback) (cs : List (Call Req))
      → running key s ≡ some id
      → any (finishes key) cs ≡ false
      → running key (fold call s cs) ≡ some id
  running-kept key id s [] h f = h
  running-kept key id s (fetching req ∷ cs) h f =
      running-kept key id (call s (fetching req)) cs (running-fetch key req s ∙ rw h (λ i. some id))
        f
  running-kept key id s (finishing k ∷ cs) h f =
      running-kept key id (finished k s) cs (running-finished key k s ∙ ground arith) (ground arith)

  running-gone :
      (key : String) (s : AgentCallback) (cs : List (Call Req))
      → running key s ≡ none
      → any (fetches key) cs ≡ false
      → running key (fold call s cs) ≡ none
  running-gone key s [] h f = h
  running-gone key s (fetching req ∷ cs) h f =
      running-gone key (call s (fetching req)) cs (running-fetch key req s ∙ ground arith)
        (ground arith)
  running-gone key s (finishing k ∷ cs) h f =
      running-gone key (finished k s) cs (running-finished key k s ∙ ground arith) f

  -- The request of a key: one that runs, which an answer for the key reaches, or the next one.
  abbrev pub request_of : String → AgentCallback → ℕ
  request_of key s = get_or (running key s) s.next_request

  -- The request that a fetch awaits.
  abbrev pub watched : Req → AgentCallback → ℕ
  watched req s = request_of (request_key req) s

  running-watched :
      (req : Req) (s : AgentCallback)
      → running (request_key req) (call s (fetching req)) ≡ some (watched req s)
  running-watched req s =
      running-fetch (request_key req) req s ∙ ground (arith, beq_refl (request_key req))

  -- Until a fetch of its key is finished, whatever other calls are made: a fetch has sent its command
  -- exactly where none of its key was running; an answer, or an error, of the agent for its key is
  -- given to what it awaits; and a later fetch of the key sends nothing and awaits the same.
  pub fetch-Answered :
      {Res : Type 0} (s : AgentCallback) (req later : Req) (cs : List (Call Req)) (res : Res)
      (error : AgentError)
      → any (finishes (request_key req)) cs ≡ false
      → request_key later ≡ request_key req
      → let s' = fold call (call s (fetching req)) cs in
        let id = watched req s in
        ((fetch key_and_command_of req s).1 ≡ (
          if is_some (running (request_key req) s)
          then watch id ∷ []
          else command (key_and_command_of req).1 ∷ watch id ∷ []))
        × (on_response (request_key req) res s'
            ≡ error_complete id ∷ response_next id res ∷ response_complete id ∷ [])
        × (on_error {Res = Res} (request_key req) error s'
            ≡ error_next id error ∷ error_complete id ∷ [])
        × ((fetch key_and_command_of later s').1 ≡ watch id ∷ [])
  unfolding fetch on_response on_error
  fetch-Answered s req later cs res error h e =
      let s' = fold call (call s (fetching req)) cs in
      let kept =
        running-kept (request_key req) (watched req s) (call s (fetching req)) cs
          (running-watched req s) h in
      (ground arith, rw kept refl, rw kept refl, rw (e, kept) refl)

  -- Once a fetch of the key is finished, and until one is made again, neither an answer nor an error
  -- of the agent for the key reaches anything, whatever else is called: also no other fetch of the
  -- key that is still awaited.
  pub finished-unanswered :
      {Res : Type 0} (s : AgentCallback) (key : String) (cs : List (Call Req)) (res : Res)
      (error : AgentError)
      → any (fetches key) cs ≡ false
      → let s' = fold call (finished key s) cs in
        (on_response key res s' ≡ []) × (on_error {Res = Res} key error s' ≡ [])
  unfolding on_response on_error
  finished-unanswered s key cs res error h =
      let gone =
        running-gone key (finished key s) cs
          (running-finished key key s ∙ ground (arith, beq_refl key)) h in
      (rw gone refl, rw gone refl)

  -- Requests of different keys are different, and older than the next one.
  abbrev pub IsApart : AgentCallback → Type 0
  IsApart s =
      ((k : String) (id : ℕ) → running k s ≡ some id → id < s.next_request)
      × ((k j : String) (id : ℕ) → running k s ≡ some id → running j s ≡ some id → k ≡ j)

  fetch_with-IsApart :
      (key : String) (c : AgentCommand) (s : AgentCallback) (found : Option ℕ)
      → running key s ≡ found
      → IsApart s
      → IsApart (fetch_with found key c s).0
  fetch_with-IsApart key c s none h apart = (
    λ k id e.
        ground
          (arith, e, running-fetch_with k key c s none h, apart.0 k id, string_eq.beq_iff key k),
    λ k j id e e'. ground (
      arith,
      e,
      e',
      running-fetch_with k key c s none h,
      running-fetch_with j key c s none h,
      apart.0 k id,
      apart.0 j id,
      apart.1 k j id,
      string_eq.beq_iff key k,
      string_eq.beq_iff key j,
    ),
  )
  fetch_with-IsApart key c s (some found) h apart = apart

  finished-IsApart : (key : String) (s : AgentCallback) → IsApart s → IsApart (finished key s)
  unfolding finished
  finished-IsApart key s apart = (
    λ k id e. ground (arith, e, running-finished k key s, apart.0 k id),
    λ k j id e e'.
        ground (arith, e, e', running-finished k key s, running-finished j key s, apart.1 k j id),
  )

  fold-IsApart : (s : AgentCallback) (cs : List (Call Req)) → IsApart s → IsApart (fold call s cs)
  unfolding fetch
  fold-IsApart s [] apart = apart
  fold-IsApart s (fetching req ∷ cs) apart = fold-IsApart (call s (fetching req)) cs (
      fetch_with-IsApart (request_key req) (key_and_command_of req).1 s
        (running (request_key req) s) refl apart)
  fold-IsApart s (finishing k ∷ cs) apart =
      fold-IsApart (finished k s) cs (finished-IsApart k s apart)

  -- A request that was made is older than the next one, and only of its own key.
  abbrev pub IsOwn : String → ℕ → AgentCallback → Type 0
  IsOwn key id s = (id < s.next_request) × ((k : String) → running k s ≡ some id → k ≡ key)

  fetch_with-IsOwn :
      (key k : String) (id : ℕ) (c : AgentCommand) (s : AgentCallback) (found : Option ℕ)
      → running k s ≡ found
      → IsOwn key id s
      → IsOwn key id (fetch_with found k c s).0
  fetch_with-IsOwn key k id c s none h own = (
    ground (arith, own.0),
    λ j e. ground (arith, e, running-fetch_with j k c s none h, own.0, own.1 j),
  )
  fetch_with-IsOwn key k id c s (some found) h own = own

  finished-IsOwn :
      (key k : String) (id : ℕ) (s : AgentCallback) → IsOwn key id s → IsOwn key id (finished k s)
  unfolding finished
  finished-IsOwn key k id s own = (own.0, λ j e. ground (arith, e, running-finished j k s, own.1 j))

  fold-IsOwn :
      (key : String) (id : ℕ) (s : AgentCallback) (cs : List (Call Req))
      → IsOwn key id s
      → IsOwn key id (fold call s cs)
  unfolding fetch
  fold-IsOwn key id s [] own = own
  fold-IsOwn key id s (fetching req ∷ cs) own = fold-IsOwn key id (call s (fetching req)) cs (
      fetch_with-IsOwn key (request_key req) id (key_and_command_of req).1 s
        (running (request_key req) s) refl own)
  fold-IsOwn key id s (finishing k ∷ cs) own =
      fold-IsOwn key id (finished k s) cs (finished-IsOwn key k id s own)

  watched-IsOwn :
      (req : Req) (s : AgentCallback)
      → IsApart s
      → IsOwn (request_key req) (watched req s) (call s (fetching req))
  watched-IsOwn req s apart =
      let s' = call s (fetching req) in
      let apart' = fold-IsApart s (fetching req ∷ []) apart in
      let own = running-watched req s in
      (
        apart'.0 (request_key req) (watched req s) own,
        λ k e. apart'.1 k (request_key req) (watched req s) e own,
      )

  -- After whatever calls on a new callback, let a fetch be made, and then whatever other calls, also
  -- ones that end it. If the request that an answer for a key reaches, or that a fetch of the key
  -- awaits, is the one that the first fetch awaits, then the key is that of the first fetch.
  pub watched-apart :
      (cs later : List (Call Req)) (req : Req) (key : String)
      → let s = fold call new_callback cs in
        let s' = fold call (call s (fetching req)) later in
        request_of key s' ≡ watched req s → key ≡ request_key req
  watched-apart cs later req key e =
      let s = fold call new_callback cs in
      let apart = fold-IsApart new_callback cs ((λ k id e. cc), (λ k j id e e'. cc)) in
      let s' = fold call (call s (fetching req)) later in
      let own =
        fold-IsOwn (request_key req) (watched req s) (call s (fetching req)) later
          (watched-IsOwn req s apart) in
      elim (Option-cases (running key s')) [
        | inl missing ↦ ground (arith, missing, e, own.0)
        | inr (id, found) ↦ ground (arith, found, e, own.1 key)
      ]
