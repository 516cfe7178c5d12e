-- ===== src/AgentCallback.antt =====
-- domain/agent-callback.ts: requests to an agent that it answers later. The two subjects of a request
-- are named by a number that no earlier request has; the calls that are made on them, and on the
-- command channel, are the effects of an operation, in order. `watch` is what `fetch` awaits: the
-- first value of the two subjects. When the library ends it, by a value, an error or the timeout, it
-- calls the function given to `finalize`, which is `finished`.
pub mod Requests
use dyrectorio.Prelude.{
  ℕ, suc, ◌+◌, String, Bool, not, Option, none, some, List, [], ◌∷◌, filter, ◌==◌, nat_eq,
  string_eq, if◌then◌else◌, lookup, set,
}
use dyrectorio.AgentCommand.{AgentCommand, CruxError}

pub record AgentCallback : Type 0 where
  pub requests : List (String × ℕ)
  pub next_request : ℕ

abbrev pub new_callback : AgentCallback
new_callback = record { requests = []; next_request = 0 }

-- `AgentError` of the protocol; its message goes into the exception.
pub record AgentError : Type 0 where
  pub status : ℕ
  pub error : String

pub data FetchEffect : Type 0 where
  command : AgentCommand → FetchEffect
  watch : ℕ → FetchEffect

pub data Effect (Res : Type 0) : Type 0 where
  response_next : ℕ → Res → Effect Res
  response_complete : ℕ → Effect Res
  error_next : ℕ → AgentError → Effect Res
  error_complete : ℕ → Effect Res

-- `not_found_status` is `Status.NOT_FOUND` of the library.
unfoldable pub map_command_error : ℕ → AgentError → CruxError
map_command_error not_found_status e =
    if e.status == not_found_status then CruxError.not_found else CruxError.internal_server_error

unfoldable pub finished : String → AgentCallback → AgentCallback
finished key s = record s { requests = filter (λ e. not (e.0 == key)) s.requests }

abbrev pub fetch_with :
    Option ℕ → String → AgentCommand → AgentCallback → AgentCallback × List FetchEffect
fetch_with (some request) key c s = (s, watch request ∷ [])
fetch_with none key c s = (
  record { requests = set key s.next_request s.requests; next_request = s.next_request + 1 },
  command c ∷ watch s.next_request ∷ [],
)

unfoldable pub fetch :
    {Req : Type 0}
    → (Req → String × AgentCommand)
    → Req
    → AgentCallback
    → AgentCallback × List FetchEffect
fetch key_and_command_of req s =
    let kc = key_and_command_of req in fetch_with (lookup kc.0 s.requests) kc.0 kc.1 s

module _ {Res : Type 0} where
  abbrev pub respond_to : Option ℕ → Res → List (Effect Res)
  respond_to none res = []
  respond_to (some request) res =
      error_complete request ∷ response_next request res ∷ response_complete request ∷ []

  unfoldable pub on_response : String → Res → AgentCallback → List (Effect Res)
  on_response key res s = respond_to (lookup key s.requests) res

  abbrev pub fail_to : Option ℕ → AgentError → List (Effect Res)
  fail_to none error = []
  fail_to (some request) error = error_next request error ∷ error_complete request ∷ []

  unfoldable pub on_error : String → AgentError → AgentCallback → List (Effect Res)
  on_error key error s = fail_to (lookup key s.requests) error

  abbrev pub cancel_all : List (String × ℕ) → List (Effect Res)
  cancel_all [] = []
  cancel_all ((key, request) ∷ rest) =
      error_complete request ∷ response_complete request ∷ cancel_all rest

  unfoldable pub cancel : AgentCallback → List (Effect Res)
  cancel s = cancel_all s.requests
