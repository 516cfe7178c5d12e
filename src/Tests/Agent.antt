-- ===== src/Tests/Agent.antt =====
-- An agent, its callbacks, its log streams and its command channel.
use dyrectorio.Prelude.{
  Bool, List, String, [], all, false, fold, none, refl, some, true, ℕ, ◌++◌, ◌==◌, ◌∷◌, ◌≡◌, ◌⊎◌,
  string_eq, nat_eq,
}
use dyrectorio.AgentCommand.{AgentCommand, CruxError, err}
use dyrectorio.AgentUpdate.{AgentToken, AgentUpdateOptions}
use dyrectorio.BufferedSubject.{new_subject}
use dyrectorio.BufferedSubject.Order
use dyrectorio.BufferedSubject.Order.{new_subject-values}
use dyrectorio.AgentCallback.{
  AgentCallback, AgentError, new_callback, fetch, finished, on_response, on_error, command, watch,
  response_next, response_complete, error_next, error_complete,
}
use dyrectorio.AgentCallback.Requests.{
  Call, fetching, finishing, call, fetch-Answered, finished-unanswered, watched-apart,
}
use dyrectorio.ContainerLogStream.{ContainerLogStream, new_stream}
use dyrectorio.ContainerLogStream.Replay
use dyrectorio.ContainerLogStream.Replay.{run, Shows, new_stream-Shows}
use dyrectorio.ContainerStatusWatcher.{ContainerIdentifier}
use dyrectorio.Deployment.{Deployment, new_deployment}
use dyrectorio.Agent.{
  Agent, AgentCall, new_agent, deploy, deploy_enabled, get_connection_status,
  if_commands_are_enabled,
}
use dyrectorio.Agent.Updates.{start_update}
use dyrectorio.Agent.Steps.{
  Event, deploying, starting_update, status_read, sending_command, update_completed, step,
}
use dyrectorio.Agent.Status.{if_commands_are_enabled-status}
use dyrectorio.Agent.Waits.{Waits}
use dyrectorio.Agent.Pending.{fold-Waits-deploy}
use dyrectorio.Agent.Invariant.{new_agent-IsConsistent}

abbrev some_sends : List (Order.Call ℕ)
some_sends =
    Order.sending 1
    ∷ Order.subscribing
    ∷ Order.sending 2
    ∷ Order.unsubscribing
    ∷ Order.sending 3
    ∷ []

new_subject-values_example :
    (fold Order.call new_subject some_sends).sent ++ (fold Order.call new_subject some_sends).buffer
    ≡ 1 ∷ 2 ∷ 3 ∷ []
new_subject-values_example = new_subject-values some_sends

-- A request is the name that it asks for.
abbrev by_name : String → String × AgentCommand
by_name name = (name, AgentCommand.deploy name)

abbrev other_calls : List (Call String)
other_calls = fetching "db" ∷ finishing "db" ∷ []

abbrev asked_web : AgentCallback
asked_web = fold (call by_name) (call by_name new_callback (fetching "web")) other_calls

abbrev no_such : AgentError
no_such = record { status = 5; error = "no such container" }

fetch-Answered_example :
    ((fetch by_name "web" new_callback).1 ≡ command (AgentCommand.deploy "web") ∷ watch 0 ∷ [])
    × (on_response {Res = ℕ} "web" 7 asked_web
        ≡ error_complete 0 ∷ response_next 0 7 ∷ response_complete 0 ∷ [])
    × (on_error {Res = ℕ} "web" no_such asked_web ≡ error_next 0 no_such ∷ error_complete 0 ∷ [])
    × ((fetch by_name "web" asked_web).1 ≡ watch 0 ∷ [])
fetch-Answered_example =
    fetch-Answered by_name new_callback "web" "web" other_calls 7 no_such refl refl

-- One of two fetches of the key was finished by its timeout; the other gets no answer.
finished-unanswered_example :
    (on_response {Res = ℕ} "web" 7
        (fold (call by_name) (finished "web" asked_web) (fetching "db" ∷ []))
      ≡ [])
    × (on_error {Res = ℕ} "web" no_such
          (fold (call by_name) (finished "web" asked_web) (fetching "db" ∷ []))
        ≡ [])
finished-unanswered_example =
    finished-unanswered by_name asked_web "web" (fetching "db" ∷ []) 7 no_such refl

-- A request of a name, and what it is for.
abbrev by_first : String × String → String × AgentCommand
by_first (name, purpose) = (name, AgentCommand.deploy purpose)

-- Between the two fetches, others are made and finished.
watched-apart_example : "web" ≡ (by_first ("web", "first")).0
unfolding fetch finished
watched-apart_example =
    watched-apart by_first (fetching ("db", "first") ∷ finishing "db" ∷ [])
      (fetching ("db", "second") ∷ finishing "db" ∷ fetching ("db", "third") ∷ []) ("web", "first")
      "web" refl

abbrev web : ContainerIdentifier
web = record { prefix = "pr"; name = "web" }

abbrev replay_events : List (Replay.Event ℕ)
replay_events =
    Replay.watching
    ∷ Replay.stream_started
    ∷ Replay.message 1
    ∷ Replay.resizing 2
    ∷ Replay.message 2
    ∷ Replay.message 3
    ∷ Replay.message 4
    ∷ []

new_stream-Shows_example :
    (s : ContainerLogStream ℕ) × (run (new_stream web 5) replay_events ≡ some s)
    × Shows web s (2, 2 ∷ 3 ∷ 4 ∷ [])
new_stream-Shows_example = new_stream-Shows web 5 replay_events

abbrev a_token : AgentToken
a_token = record { sub = "node"; iat = 0; nonce = "n1"; version = "0.1.0"; is_install = false }

abbrev an_update : AgentUpdateOptions
an_update = record {
  token = a_token;
  signed_token = "jwt2";
  started_at = 1000;
  started_by = "user";
}

abbrev an_agent : Agent ℕ ℕ
an_agent = new_agent "10.0.0.1" "0.8.0" 500 a_token "jwt1" false

abbrev never : List (AgentCall ℕ) → Bool
never calls = false

abbrev updated : Agent ℕ ℕ
updated = (start_update 1000 "latest" an_update an_agent).0

-- A day after the start of an update that never ended, the agent still refuses a deployment.
fold-Waits-deploy_example :
    let b = fold (step never) updated (
      status_read 86400000
      ∷ sending_command 86400000 "restart"
      ∷ update_completed 86400000 "jwt2"
      ∷ []) in
    Waits updated b
    × ((now : ℕ) (d : Deployment) → (deploy now d b).1 ≡ err CruxError.precondition_failed)
unfolding start_update
fold-Waits-deploy_example =
    fold-Waits-deploy never updated
      (status_read 86400000
        ∷ sending_command 86400000 "restart"
        ∷ update_completed 86400000 "jwt2"
        ∷ [])
      refl refl

if_commands_are_enabled-status_example :
    if_commands_are_enabled 1000 (deploy_enabled (new_deployment "d1")) an_agent
    ≡ deploy_enabled (new_deployment "d1") an_agent
unfolding get_connection_status
if_commands_are_enabled-status_example =
    if_commands_are_enabled-status never 1000 (deploy_enabled (new_deployment "d1")) an_agent refl

abbrev agent_events : List (Event ℕ ℕ)
agent_events = deploying 600 (new_deployment "d1") ∷ starting_update 700 "latest" an_update ∷ []

new_agent-IsConsistent_example :
    let b = fold (step never) an_agent agent_events in
    (all (λ e. e.1.id == e.0) b.deployments ≡ true) × (b.update ≡ none ⊎ b.deployments ≡ [])
new_agent-IsConsistent_example =
    new_agent-IsConsistent never "10.0.0.1" "0.8.0" 500 a_token "jwt1" false agent_events
