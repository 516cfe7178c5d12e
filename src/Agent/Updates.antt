-- ===== src/Agent/Updates.antt =====
-- The connection of domain/agent.ts: joining, leaving, the replacement of its token, and the update of
-- the program of the agent.
use dyrectorio.Prelude.{
  Bool, List, Option, String, [], filter, if◌then◌else◌, length, ltb, map, none, not, some, true, ℕ,
  ◌++◌, ◌==◌, ◌∷◌, string_eq, nat_eq,
}
use dyrectorio.AgentCommand.{
  AgentCommand, AgentConnectionMessage, CallbackType, CloseReason, CruxError, Result, ok, err,
}
use dyrectorio.AgentUpdate.{AgentUpdateOptions, complete_update, update_command}
use dyrectorio.ContainerStatusWatcher.{ContainerStatusWatcher, stop}
use dyrectorio.Deployment.{Deployment, StoredStatus, on_disconnected}
use dyrectorio.Agent.{
  Agent, AgentCall, AgentTokenReplacement, command, complete_commands, event, subscribe_status,
  unsubscribe_status, cancelled, called, close, updating, get_connection_status, id_of,
}
use dyrectorio.Agent.Streams.{watcher_effect}

abbrev pub cancelled_requests : {C : Type 0} → CallbackType → List (String × ℕ) → List (AgentCall C)
cancelled_requests type requests = map (λ r. cancelled type r.1) requests

abbrev pub stop_all :
    {C : Type 0}
    → List (String × ContainerStatusWatcher C)
    → List (String × ContainerStatusWatcher C) × List (AgentCall C)
stop_all [] = ([], [])
stop_all ((prefix, watcher) ∷ rest) =
    let stopped = stop watcher in
    let others = stop_all rest in
    ((prefix, stopped.0) ∷ others.0, map (watcher_effect prefix) stopped.1 ++ others.1)

-- `AgentUpdateOptions` are the replacement of the token, too.
abbrev pub replacement_of : AgentUpdateOptions → AgentTokenReplacement
replacement_of u = record {
  started_by = u.started_by;
  token = u.token;
  signed_token = u.signed_token;
}

abbrev pub completed : ℕ → Option AgentUpdateOptions → String → Result String
completed now none jwt = err CruxError.type_error
completed now (some u) jwt = complete_update now jwt u

module _ {C M : Type 0} where
  abbrev pub disconnect_deployments : Agent C M → Agent C M
  disconnect_deployments a = record a {
    deployments = map (λ e. (e.0, on_disconnected e.1)) a.deployments;
  }

  abbrev pub replace_with :
      Option AgentTokenReplacement
      → AgentTokenReplacement
      → Agent C M
      → Agent C M × Result (Unit {0})
  replace_with (some old) replacement a = (a, err CruxError.conflict)
  replace_with none replacement a = (
    called (command (AgentCommand.replace_token replacement.signed_token) ∷ [])
        (record a { replacement_token = some replacement }),
    ok tt,
  )

  unfoldable pub replace_token : AgentTokenReplacement → Agent C M → Agent C M × Result (Unit {0})
  replace_token replacement a = replace_with a.replacement_token replacement a

  unfoldable pub on_disconnected_agent : Agent C M → Agent C M
  on_disconnected_agent a =
      let stopped = stop_all a.status_streams in
      called
        (stopped.1
          ++ cancelled_requests CallbackType.list_secrets a.list_secrets.requests
          ++ cancelled_requests CallbackType.container_log a.container_log.requests
          ++ cancelled_requests CallbackType.container_inspect a.container_inspect.requests
          ++ cancelled_requests CallbackType.delete_containers a.delete_containers.requests
          ++ complete_commands ∷ event (AgentConnectionMessage.left (id_of a)) ∷ [])
        (record (disconnect_deployments a) { status_streams = stopped.0 })

  -- The deployment is the one that the caller has; its status is returned.
  unfoldable pub on_deployment_finished : Deployment → Agent C M → Agent C M × StoredStatus
  on_deployment_finished d a =
      (record a { deployments = filter (λ e. not (e.0 == d.id)) a.deployments }, d.status)

  abbrev pub start_update_after :
      String → AgentUpdateOptions → Agent C M × Bool → Agent C M × Result (Unit {0})
  start_update_after tag u (a, is_updating) =
      if is_updating then (a, err CruxError.precondition_failed) else (
        called (command (update_command tag u) ∷ [])
            (record a { update = some u; replacement_token = some (replacement_of u) }),
        ok tt,
      )

  unfoldable pub start_update :
      ℕ → String → AgentUpdateOptions → Agent C M → Agent C M × Result (Unit {0})
  unfolding updating
  start_update now tag u a =
      if ltb 0 (length a.deployments)
      then (a, err CruxError.precondition_failed)
      else start_update_after tag u (updating now a)

  module _ (closed : List (AgentCall C) → Bool) (now : ℕ) where
    abbrev pub emit_status : Option String → Agent C M → Agent C M
    emit_status error a =
        let (b, status) = get_connection_status closed now a in
        called (event (AgentConnectionMessage.status_changed (id_of b) status error) ∷ []) b

    unfoldable pub on_connected : Agent C M → Agent C M
    on_connected a =
        let (b, status) =
          get_connection_status closed now
            (called (subscribe_status ∷ []) (record a { has_status_subscription = true })) in
        called
          (event (AgentConnectionMessage.joined (id_of b) b.address status b.version b.connected_at)
            ∷ [])
          b

    unfoldable pub on_update_aborted : Option String → Agent C M → Agent C M
    on_update_aborted error a =
        emit_status error (record a { update = none; replacement_token = none })

    -- Without a subscription the closing is skipped: the exception is caught.
    abbrev pub close_updated : Agent C M → Agent C M
    close_updated a =
        if a.has_status_subscription
        then close (some CloseReason.self_destruct) (called (unsubscribe_status ∷ []) a)
        else a

    abbrev pub complete_with : Result String → Agent C M → Agent C M × Result String
    complete_with (err e) a = (a, err e)
    complete_with (ok started_by) a =
        (emit_status none (record (close_updated a) { update = none }), ok started_by)

    -- `jwt` is the signed token of the new connection.
    unfoldable pub on_update_completed : String → Agent C M → Agent C M × Result String
    on_update_completed jwt a =
        complete_with (completed now a.update jwt) (disconnect_deployments a)

    abbrev pub token_replaced :
        Option AgentTokenReplacement → Agent C M → Agent C M × Result AgentTokenReplacement
    token_replaced none a = (a, err CruxError.precondition_failed)
    token_replaced (some r) a = (
      emit_status none
          (record a { token = r.token; jwt = r.signed_token; replacement_token = none }),
      ok r,
    )

    unfoldable pub on_token_replaced : Agent C M → Agent C M × Result AgentTokenReplacement
    on_token_replaced a = token_replaced a.replacement_token a
