-- ===== src/Agent/Invariant.antt =====
-- What holds of the deployments of an agent of domain/agent.ts at any time.
use dyrectorio.Prelude.{
  Bool, Bool-cases, List, Option, String, [], all, all-filter_of_all, arith, false, fold, inl, inr,
  length, lookup, ltb, none, refl, some, string_eq, true, ℕ, ◌==◌, ◌∙◌, ◌∷◌, ◌≡◌, ◌⊎◌, nat_eq,
}
use dyrectorio.AgentCommand.{Result, ok, err}
use dyrectorio.AgentUpdate.{AgentToken, AgentUpdateOptions}
use dyrectorio.AgentCallback.{fetch, finished}
use dyrectorio.ContainerLogStream.{new_stream}
use dyrectorio.ContainerStatusWatcher.{container_prefix_name_of}
use dyrectorio.Deployment.{Deployment, DeploymentStatusMessage, on_update}
use dyrectorio.Agent.{
  new_agent, Agent, AgentCall, AgentTokenReplacement, close, deploy, deploy_enabled, updating,
  updating_with, send_container_command, send_enabled,
}
use dyrectorio.Agent.Streams.{
  upsert_watcher, upsert_stream, watcher_enabled, stream_enabled, upsert_container_status_watcher,
  upsert_container_log_stream, on_container_state_stream_started,
  on_container_status_stream_finished, watcher_stream_started, watcher_stream_finished,
}
use dyrectorio.Agent.Callbacks.{
  type_of, key_and_command_of, callback_of, fetch_callback, fetch_enabled, on_fetch_finished,
  with_callback,
}
use dyrectorio.Agent.Updates.{
  replace_token, replace_with, on_disconnected_agent, on_deployment_finished, start_update,
  start_update_after, on_connected, on_update_aborted, on_update_completed, on_token_replaced,
  token_replaced, complete_with, completed, close_updated, disconnect_deployments,
}
use dyrectorio.Agent.Steps
use dyrectorio.Agent.Steps.{Event, progressed, watcher_stepped, log_stepped, step}
use dyrectorio.Agent.Consistent.{
  is_own, all-set, all-on_disconnected, IsConsistent, Same, Same-IsConsistent,
  deploy_enabled-IsConsistent, get_connection_status-IsConsistent,
  if_commands_are_enabled-IsConsistent, log_stepped-Same, replace_with-Same,
  updating_with-IsConsistent, upsert_stream-Same, upsert_watcher-Same, watcher_stepped-Same,
  watcher_stream_finished-Same, watcher_stream_started-Same, with_callback-Same,
}

lookup-is_own :
    (id : String) (d : Deployment) (m : List (String × Deployment))
    → all is_own m ≡ true
    → lookup id m ≡ some d
    → (d.id == id) ≡ true
lookup-is_own id d [] h e = cc
lookup-is_own id d ((j, f) ∷ m) h e = elim (Bool-cases (j == id)) [
  | inl same ↦ ground (
    arith,
    same,
    h,
    e,
    string_eq.beq_iff f.id j,
    string_eq.beq_iff j id,
    string_eq.beq_iff d.id id,
  )
  | inr other ↦ lookup-is_own id d m (ground (arith, h)) (ground (arith, other, e))
]

empty_of_length : (m : List (String × Deployment)) → ltb 0 (length m) ≡ false → m ≡ []
empty_of_length [] h = refl
empty_of_length (x ∷ m) h = ground arith

module _ {C M : Type 0} where
  updating_with-deployments :
      (now : ℕ) (u : Option AgentUpdateOptions) (a : Agent C M)
      → (updating_with now u a).0.deployments ≡ a.deployments
  updating_with-deployments now none a = refl
  updating_with-deployments now (some u) a = ground arith

  progressed-IsConsistent :
      (d : Option Deployment) (id : String) (message : DeploymentStatusMessage) (a : Agent C M)
      → lookup id a.deployments ≡ d
      → IsConsistent a
      → IsConsistent (progressed d id message a)
  unfolding on_update
  progressed-IsConsistent none id message a e h = h
  progressed-IsConsistent (some d) id message a e (own, either) = (
    all-set id _ a.deployments own (lookup-is_own id d a.deployments own e),
    elim either [
      | inl free ↦ inl free
      | inr empty ↦ absurd (let missing : lookup id a.deployments ≡ none = rw empty refl in cc)
    ],
  )

  disconnect_deployments-IsConsistent :
      (a : Agent C M) → IsConsistent a → IsConsistent (disconnect_deployments a)
  disconnect_deployments-IsConsistent a (own, inl free) =
      (all-on_disconnected a.deployments own, inl free)
  disconnect_deployments-IsConsistent a (own, inr empty) =
      (all-on_disconnected a.deployments own, inr (rw empty refl))

  start_update_after-IsConsistent :
      (tag : String) (u : AgentUpdateOptions) (r : Agent C M × Bool)
      → r.0.deployments ≡ []
      → IsConsistent r.0
      → IsConsistent (start_update_after tag u r).0
  start_update_after-IsConsistent tag u (b, true) empty h = h
  start_update_after-IsConsistent tag u (b, false) empty h = (h.0, inr empty)

  start_update-IsConsistent :
      (now : ℕ) (tag : String) (u : AgentUpdateOptions) (a : Agent C M)
      → IsConsistent a
      → IsConsistent (start_update now tag u a).0
  unfolding start_update
  start_update-IsConsistent now tag u a h =
      let (kept, free) = updating_with-IsConsistent now a.update a refl h in
      elim (Bool-cases (ltb 0 (length a.deployments))) [
        | inl some_run ↦ rw some_run h
        | inr none_run ↦ rw none_run (
            start_update_after-IsConsistent tag u (updating now a)
              (updating_with-deployments now a.update a ∙ empty_of_length a.deployments none_run)
              kept)
      ]

  module _ (closed : List (AgentCall C) → Bool) (now : ℕ) where
    close_updated-Same : (a : Agent C M) → Same a (close_updated closed now a)
    unfolding close
    close_updated-Same a = elim (Bool-cases a.has_status_subscription) [
      | inl e ↦ rw e (refl, refl)
      | inr e ↦ rw e (refl, refl)
    ]

    complete_with-IsConsistent :
        (r : Result String) (a : Agent C M)
        → IsConsistent a
        → IsConsistent (complete_with closed now r a).0
    complete_with-IsConsistent (err e) a h = h
    complete_with-IsConsistent (ok by) a h =
        get_connection_status-IsConsistent closed now
          (record (close_updated closed now a) { update = none })
          ((Same-IsConsistent a (close_updated closed now a) (close_updated-Same a) h).0, inl refl)

    token_replaced-IsConsistent :
        (r : Option AgentTokenReplacement) (a : Agent C M)
        → IsConsistent a
        → IsConsistent (token_replaced closed now r a).0
    token_replaced-IsConsistent none a h = h
    token_replaced-IsConsistent (some r) a h = get_connection_status-IsConsistent closed now _ h

  step-IsConsistent :
      (closed : List (AgentCall C) → Bool) (a : Agent C M) (e : Event C M)
      → IsConsistent a
      → IsConsistent (step closed a e)
  unfolding deploy on_deployment_finished upsert_container_status_watcher send_container_command
      upsert_container_log_stream fetch_callback on_fetch_finished replace_token on_connected
      on_update_completed on_update_aborted on_token_replaced on_disconnected_agent close
      on_container_state_stream_started on_container_status_stream_finished
  step-IsConsistent closed a (Steps.deploying now d) h =
      if_commands_are_enabled-IsConsistent now (deploy_enabled d) a (deploy_enabled-IsConsistent d)
        h
  step-IsConsistent closed a (Steps.deployment_progress id message) h =
      progressed-IsConsistent (lookup id a.deployments) id message a refl h
  step-IsConsistent closed a (Steps.deployment_finished d) (own, inl free) =
      (all-filter_of_all is_own _ a.deployments own, inl free)
  step-IsConsistent closed a (Steps.deployment_finished d) (own, inr empty) =
      (all-filter_of_all is_own _ a.deployments own, inr (rw empty refl))
  step-IsConsistent closed a (Steps.watching_states now p o) h =
      if_commands_are_enabled-IsConsistent now (watcher_enabled p o) a
        (λ b free.
          Same-IsConsistent b (upsert_watcher (lookup p b.status_streams) p o b).0
            (upsert_watcher-Same (lookup p b.status_streams) p o b))
        h
  step-IsConsistent closed a (Steps.watcher_event p e) h =
      Same-IsConsistent a (watcher_stepped (lookup p a.status_streams) p e a)
        (watcher_stepped-Same (lookup p a.status_streams) p e a) h
  step-IsConsistent closed a (Steps.state_stream_started p) h =
      Same-IsConsistent a (watcher_stream_started p (lookup p a.status_streams) a).0
        (watcher_stream_started-Same p (lookup p a.status_streams) a) h
  step-IsConsistent closed a (Steps.state_stream_finished p) h =
      Same-IsConsistent a (watcher_stream_finished p (lookup p a.status_streams) a)
        (watcher_stream_finished-Same p (lookup p a.status_streams) a) h
  step-IsConsistent closed a (Steps.watching_log now c t) h =
      let key = container_prefix_name_of c in
      if_commands_are_enabled-IsConsistent now (stream_enabled c t) a
        (λ b free.
          Same-IsConsistent b (upsert_stream (lookup key b.log_streams) (new_stream c t) key b).0
            (upsert_stream-Same (lookup key b.log_streams) (new_stream c t) key b))
        h
  step-IsConsistent closed a (Steps.log_event key e) h =
      Same-IsConsistent a (log_stepped (lookup key a.log_streams) key e a)
        (log_stepped-Same (lookup key a.log_streams) key e a) h
  step-IsConsistent closed a (Steps.fetching now req) h =
      if_commands_are_enabled-IsConsistent now (fetch_enabled req) a
        (λ b free.
          Same-IsConsistent b
            (with_callback (type_of req)
              (fetch key_and_command_of req (callback_of (type_of req) b)).0 b)
            (with_callback-Same (type_of req)
              (fetch key_and_command_of req (callback_of (type_of req) b)).0 b))
        h
  step-IsConsistent closed a (Steps.fetch_finished type key) h =
      Same-IsConsistent a (with_callback type (finished key (callback_of type a)) a)
        (with_callback-Same type (finished key (callback_of type a)) a) h
  step-IsConsistent closed a (Steps.sending_command now c) h =
      if_commands_are_enabled-IsConsistent now (send_enabled c) a (λ b free same. same) h
  step-IsConsistent closed a (Steps.status_read now) h =
      get_connection_status-IsConsistent closed now a h
  step-IsConsistent closed a (Steps.agent_connected now) h =
      get_connection_status-IsConsistent closed now _ h
  step-IsConsistent closed a Steps.agent_disconnected h = disconnect_deployments-IsConsistent a h
  step-IsConsistent closed a (Steps.closing reason) h = h
  step-IsConsistent closed a (Steps.replacing_token r) h =
      Same-IsConsistent a (replace_with a.replacement_token r a).0
        (replace_with-Same a.replacement_token r a) h
  step-IsConsistent closed a (Steps.token_replaced now) h =
      token_replaced-IsConsistent closed now a.replacement_token a h
  step-IsConsistent closed a (Steps.starting_update now tag u) h =
      start_update-IsConsistent now tag u a h
  step-IsConsistent closed a (Steps.update_aborted now error) h =
      get_connection_status-IsConsistent closed now
        (record a { update = none; replacement_token = none }) (h.0, inl refl)
  step-IsConsistent closed a (Steps.update_completed now jwt) h =
      complete_with-IsConsistent closed now (completed now a.update jwt) (disconnect_deployments a)
        (disconnect_deployments-IsConsistent a h)

  fold-IsConsistent :
      (closed : List (AgentCall C) → Bool) (a : Agent C M) (es : List (Event C M))
      → IsConsistent a
      → IsConsistent (fold (step closed) a es)
  fold-IsConsistent closed a [] h = h
  fold-IsConsistent closed a (e ∷ es) h =
      fold-IsConsistent closed (step closed a e) es (step-IsConsistent closed a e h)

  -- Whatever happens to a new agent, at whatever times: a deployment is stored under its own id, and
  -- no deployment is stored while an update is in progress.
  pub new_agent-IsConsistent :
      (closed : List (AgentCall C) → Bool) (address version : String) (connected_at : ℕ)
      (token : AgentToken) (jwt : String) (outdated : Bool) (es : List (Event C M))
      → let b = fold (step closed) (new_agent address version connected_at token jwt outdated) es in
        (all (λ e. e.1.id == e.0) b.deployments ≡ true) × (b.update ≡ none ⊎ b.deployments ≡ [])
  new_agent-IsConsistent closed address version connected_at token jwt outdated es =
      fold-IsConsistent closed (new_agent address version connected_at token jwt outdated) es
        (refl, inl refl)
