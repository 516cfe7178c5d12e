-- ===== src/Agent/Pending.antt =====
-- What an agent of domain/agent.ts is sent while a replacement of its token is pending.
use dyrectorio.Prelude.{Bool, List, [], any, arith, false, fold, refl, true, ℕ, ◌∙◌, ◌∷◌, ◌≡◌}
use dyrectorio.AgentCommand.{CruxError, Result, err}
use dyrectorio.Deployment.{Deployment}
use dyrectorio.Agent.{
  deploy_enabled, send_enabled, Agent, AgentCall, deploy, updating, send_container_command,
  if_commands_are_enabled, enabled_after, lookup,
}
use dyrectorio.Agent.Streams.{
  watcher_enabled, stream_enabled, upsert_container_status_watcher, upsert_container_log_stream,
  on_container_state_stream_started, on_container_status_stream_finished,
}
use dyrectorio.Agent.Callbacks.{fetch_enabled, fetch_callback, on_fetch_finished}
use dyrectorio.Agent.Updates.{
  replace_token, on_deployment_finished, on_update_completed, disconnect_deployments,
}
use dyrectorio.Agent.Steps.{
  Event, deploying, deployment_progress, deployment_finished, watching_states, watcher_event,
  state_stream_started, state_stream_finished, watching_log, log_event, fetching, fetch_finished,
  sending_command, status_read, agent_connected, agent_disconnected, closing, replacing_token,
  token_replaced, starting_update, update_aborted, update_completed, step,
}
use dyrectorio.Agent.Work.{is_ending}
use dyrectorio.Agent.Waits.{
  IsPending, Waits, close-Waits, complete_with-Waits, get_connection_status-Waits,
  if_commands_are_enabled-Waits, log_stepped-Waits, on_connected-Waits, on_disconnected_agent-Waits,
  progressed-Waits, replace_with-Waits, start_update-Waits, updating_with-Waits,
  watcher_stepped-Waits, watcher_stream_finished-Waits, watcher_stream_started-Waits,
  with_callback-Waits,
}

module _ {C M : Type 0} where
  step-Waits :
      (closed : List (AgentCall C) → Bool) (a : Agent C M) (e : Event C M)
      → is_ending e ≡ false
      → IsPending a
      → Waits a (step closed a e)
  unfolding deploy on_deployment_finished upsert_container_status_watcher send_container_command
      upsert_container_log_stream fetch_callback on_fetch_finished replace_token on_update_completed
      on_container_state_stream_started on_container_status_stream_finished
  step-Waits closed a (deploying now d) e h =
      if_commands_are_enabled-Waits now (deploy_enabled d) a h
  step-Waits closed a (deployment_progress id message) e h = progressed-Waits _ id message a h
  step-Waits closed a (deployment_finished d) e h = (h, refl)
  step-Waits closed a (watching_states now p o) e h =
      if_commands_are_enabled-Waits now (watcher_enabled p o) a h
  step-Waits closed a (watcher_event prefix ev) e h =
      watcher_stepped-Waits (lookup prefix a.status_streams) prefix ev a e h
  step-Waits closed a (state_stream_started p) e h = watcher_stream_started-Waits p _ a h
  step-Waits closed a (state_stream_finished p) e h = watcher_stream_finished-Waits p _ a h
  step-Waits closed a (watching_log now c t) e h =
      if_commands_are_enabled-Waits now (stream_enabled c t) a h
  step-Waits closed a (log_event key ev) e h = log_stepped-Waits _ key ev a h
  step-Waits closed a (fetching now req) e h =
      if_commands_are_enabled-Waits now (fetch_enabled req) a h
  step-Waits closed a (fetch_finished type key) e h = with_callback-Waits type _ a h
  step-Waits closed a (sending_command now c) e h =
      if_commands_are_enabled-Waits now (send_enabled c) a h
  step-Waits closed a (status_read now) e h = get_connection_status-Waits closed now a a (h, refl)
  step-Waits closed a (agent_connected now) e h = on_connected-Waits closed now a h
  step-Waits closed a agent_disconnected e h = on_disconnected_agent-Waits a h
  step-Waits closed a (closing reason) e h = close-Waits reason a a (h, refl)
  step-Waits closed a (replacing_token r) e h = replace_with-Waits a.replacement_token r a h h
  step-Waits closed a (token_replaced now) e h = cc
  step-Waits closed a (starting_update now tag u) e h = start_update-Waits now tag u a h
  step-Waits closed a (update_aborted now error) e h = cc
  step-Waits closed a (update_completed now jwt) e h =
      complete_with-Waits closed now _ a (disconnect_deployments a) (h, refl)

  fold-Waits :
      (closed : List (AgentCall C) → Bool) (a b : Agent C M) (es : List (Event C M))
      → any is_ending es ≡ false
      → Waits a b
      → Waits a (fold (step closed) b es)
  fold-Waits closed a b [] none_ends w = w
  fold-Waits closed a b (e ∷ es) none_ends (pending, same) =
      let (pending', same') = step-Waits closed b e (ground (arith, none_ends)) pending in
      fold-Waits closed a (step closed b e) es (ground (arith, none_ends)) (pending', same' ∙ same)

  enabled_after-err :
      {A : Type 0} (body : Agent C M → Agent C M × Result A) (r : Agent C M × Bool)
      → IsPending r.0
      → (enabled_after body r).1 ≡ err CruxError.precondition_failed
  enabled_after-err body (b, true) h = refl
  enabled_after-err body (b, false) h = rw h refl

  -- While a replacement of the token is pending, which the start of an update also makes it: whatever
  -- happens, at whatever times, but for the confirmation of the replacement and the abort of an
  -- update, the replacement stays pending, the agent is sent no command but to stream a log, to update
  -- or to close, and a deployment throws. The expiry of the update changes nothing of this.
  pub fold-Waits-deploy :
      (closed : List (AgentCall C) → Bool) (a : Agent C M) (es : List (Event C M))
      → IsPending a
      → any is_ending es ≡ false
      → let b = fold (step closed) a es in
        Waits a b
        × ((now : ℕ) (d : Deployment) → (deploy now d b).1 ≡ err CruxError.precondition_failed)
  unfolding deploy if_commands_are_enabled
  fold-Waits-deploy closed a es h none_ends =
      let b = fold (step closed) a es in
      let w = fold-Waits closed a a es none_ends (h, refl) in
      (
        w,
        λ now d.
            enabled_after-err (deploy_enabled d) (updating now b)
              (updating_with-Waits now b.update b w.0).0,
      )
