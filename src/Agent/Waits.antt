-- ===== src/Agent/Waits.antt =====
-- The methods of domain/agent.ts while a replacement of the token is pending.
use dyrectorio.Prelude.{
  any-append, Bool, Bool-cases, List, Option, String, [], any, false, filter, inl, inr, is_some,
  length, ltb, none, refl, some, true, ℕ, ◌∙◌, ◌∷◌, ◌≡◌,
}
use dyrectorio.AgentCommand.{AgentConnectionMessage, CallbackType, CloseReason, Result, ok, err}
use dyrectorio.AgentUpdate.{AgentUpdateOptions, expired, update_command}
use dyrectorio.ContainerLogStream
use dyrectorio.ContainerLogStream.{ContainerLogStream, AgentTunnel}
use dyrectorio.ContainerLogStream.Replay
use dyrectorio.ContainerStatusWatcher.{ContainerStatusWatcher}
use dyrectorio.ContainerStatusWatcher.Lifecycle
use dyrectorio.Deployment.{Deployment, DeploymentStatusMessage}
use dyrectorio.AgentCallback.{AgentCallback}
use dyrectorio.Agent.{
  id_of, status_after, Agent, AgentCall, AgentTokenReplacement, command, event, called, close,
  updating, updating_with, get_connection_status, if_commands_are_enabled, subscribe_status,
  unsubscribe_status, enabled_after,
}
use dyrectorio.Agent.Streams.{
  delete_log_stream, watcher_stream_started, stream_started, watcher_stream_finished,
}
use dyrectorio.Agent.Callbacks.{with_callback}
use dyrectorio.Agent.Updates.{
  replace_with, on_disconnected_agent, start_update, start_update_after, on_connected, emit_status,
  complete_with, close_updated,
}
use dyrectorio.Agent.Steps.{
  watcher_event, log_commands, is_free, progressed, watcher_stepped, log_after, log_stepped,
}
use dyrectorio.Agent.Work.{
  works-append, works, is_ending, watcher_works, log_works, log_effects, finished_works,
  works-stop_all, cancelled_works,
}

module _ {C M : Type 0} where
  abbrev pub IsPending : Agent C M → Type 0
  IsPending a = is_some a.replacement_token ≡ true

  abbrev pub work : Agent C M → List (AgentCall C)
  work a = filter works a.calls

  -- What is pending stays pending, and no work is asked for.
  abbrev pub Waits : Agent C M → Agent C M → Type 0
  Waits a b = IsPending b × (work b ≡ work a)

  pub updating_with-Waits :
      (now : ℕ) (u : Option AgentUpdateOptions) (a : Agent C M)
      → IsPending a
      → Waits a (updating_with now u a).0
  updating_with-Waits now none a h = (h, refl)
  updating_with-Waits now (some u) a h = elim (Bool-cases (expired now u)) [
    | inl e ↦ rw e (h, refl)
    | inr e ↦ rw e (h, refl)
  ]

  pub enabled_after-Waits :
      {A : Type 0} (body : Agent C M → Agent C M × Result A) (a : Agent C M) (r : Agent C M × Bool)
      → Waits a r.0
      → Waits a (enabled_after body r).0
  enabled_after-Waits body a (b, true) h = h
  enabled_after-Waits body a (b, false) (pending, same) = rw pending (pending, same)

  -- A guarded method throws.
  pub if_commands_are_enabled-Waits :
      {A : Type 0} (now : ℕ) (body : Agent C M → Agent C M × Result A) (a : Agent C M)
      → IsPending a
      → Waits a (if_commands_are_enabled now body a).0
  unfolding if_commands_are_enabled
  if_commands_are_enabled-Waits now body a h =
      enabled_after-Waits body a (updating now a) (updating_with-Waits now a.update a h)

  pub status_after-Waits :
      (a : Agent C M) (r : Agent C M × Bool) → Waits a r.0 → Waits a (status_after r).0
  status_after-Waits a (b, true) h = h
  status_after-Waits a (b, false) (pending, same) = rw pending (pending, same)

  pub get_connection_status-Waits :
      (closed : List (AgentCall C) → Bool) (now : ℕ) (a b : Agent C M)
      → Waits a b
      → Waits a (get_connection_status closed now b).0
  unfolding get_connection_status
  get_connection_status-Waits closed now a b (pending, same) =
      let inner =
        status_after-Waits b (updating now b) (updating_with-Waits now b.update b pending) in
      elim (Bool-cases (closed b.calls)) [
        | inl e ↦ rw e (pending, same)
        | inr e ↦ rw e (inner.0, inner.1 ∙ same)
      ]

  pub progressed-Waits :
      (d : Option Deployment) (id : String) (message : DeploymentStatusMessage) (a : Agent C M)
      → IsPending a
      → Waits a (progressed d id message a)
  progressed-Waits none id message a h = (h, refl)
  progressed-Waits (some d) id message a h = (h, refl)

  pub watcher_stepped-Waits :
      (w : Option (ContainerStatusWatcher C)) (prefix : String) (e : Lifecycle.Event C)
      (a : Agent C M)
      → is_ending {M = Unit {0}} (watcher_event prefix e) ≡ false
      → IsPending a
      → Waits a (watcher_stepped w prefix e a)
  watcher_stepped-Waits none prefix e a never h = (h, refl)
  watcher_stepped-Waits (some w) prefix e a never h =
      (h, works-append _ a.calls _ (watcher_works prefix w e never) refl)

  pub stream_started-Waits :
      (prefix : String) (w : Option (ContainerStatusWatcher C)) (a : Agent C M)
      → IsPending a
      → Waits a (stream_started prefix w a).0
  stream_started-Waits prefix none a h = (h, refl)
  stream_started-Waits prefix (some w) a h = (h, refl)

  pub watcher_stream_started-Waits :
      (prefix : String) (w : Option (ContainerStatusWatcher C)) (a : Agent C M)
      → IsPending a
      → Waits a (watcher_stream_started prefix w a).0
  watcher_stream_started-Waits prefix none a h = (h, refl)
  watcher_stream_started-Waits prefix (some w) a h = stream_started-Waits prefix _ a h

  pub watcher_stream_finished-Waits :
      (prefix : String) (w : Option (ContainerStatusWatcher C)) (a : Agent C M)
      → IsPending a
      → Waits a (watcher_stream_finished prefix w a)
  watcher_stream_finished-Waits prefix none a h = (h, refl)
  watcher_stream_finished-Waits prefix (some w) a h =
      (h, works-append _ a.calls _ (finished_works prefix w) refl)

  pub log_after-Waits :
      (o : Option (ContainerLogStream M × List (ContainerLogStream.Effect M))) (key : String)
      (a : Agent C M)
      → any works (log_commands {C = C} (log_effects o)) ≡ false
      → IsPending a
      → Waits a (log_after o key a)
  unfolding delete_log_stream
  log_after-Waits none key a streams h = (h, refl)
  log_after-Waits (some (stream, effects)) key a streams h =
      let same = works-append (log_commands effects) a.calls (work a) streams refl in
      elim (Bool-cases (any is_free effects)) [ inl e ↦ rw e (h, same) | inr e ↦ rw e (h, same) ]

  pub log_stepped-Waits :
      (s : Option (ContainerLogStream M)) (key : String) (e : Replay.Event M) (a : Agent C M)
      → IsPending a
      → Waits a (log_stepped s key e a)
  log_stepped-Waits none key e a h = (h, refl)
  log_stepped-Waits (some s) key e a h = log_after-Waits (Replay.step s e) key a (log_works C s e) h

  pub with_callback-Waits :
      (type : CallbackType) (c : AgentCallback) (a : Agent C M)
      → IsPending a
      → Waits a (with_callback type c a)
  with_callback-Waits CallbackType.list_secrets c a h = (h, refl)
  with_callback-Waits CallbackType.container_log c a h = (h, refl)
  with_callback-Waits CallbackType.container_inspect c a h = (h, refl)
  with_callback-Waits CallbackType.delete_containers c a h = (h, refl)

  pub on_disconnected_agent-Waits :
      (a : Agent C M) → IsPending a → Waits a (on_disconnected_agent a)
  unfolding on_disconnected_agent
  on_disconnected_agent-Waits a h = (
    h,
    works-append _ a.calls _
        (simp (
          any-append,
          works-stop_all a.status_streams,
          cancelled_works C CallbackType.list_secrets a.list_secrets.requests,
          cancelled_works C CallbackType.container_log a.container_log.requests,
          cancelled_works C CallbackType.container_inspect a.container_inspect.requests,
          cancelled_works C CallbackType.delete_containers a.delete_containers.requests,
        ))
        refl,
  )

  pub close-Waits :
      (reason : Option CloseReason) (a b : Agent C M) → Waits a b → Waits a (close reason b)
  unfolding close
  close-Waits none a b (pending, same) = (pending, works-append _ b.calls _ refl same)
  close-Waits (some CloseReason.unspecified) a b (pending, same) =
      (pending, works-append _ b.calls _ refl same)
  close-Waits (some CloseReason.close) a b (pending, same) =
      (pending, works-append _ b.calls _ refl same)
  close-Waits (some CloseReason.self_destruct) a b (pending, same) =
      (pending, works-append _ b.calls _ refl same)
  close-Waits (some CloseReason.shutdown) a b (pending, same) =
      (pending, works-append _ b.calls _ refl same)
  close-Waits (some CloseReason.revoke_token) a b (pending, same) =
      (pending, works-append _ b.calls _ refl same)
  close-Waits (some CloseReason.unrecognized) a b (pending, same) =
      (pending, works-append _ b.calls _ refl same)

  pub replace_with-Waits :
      (old : Option AgentTokenReplacement) (r : AgentTokenReplacement) (a : Agent C M)
      → is_some old ≡ true
      → IsPending a
      → Waits a (replace_with old r a).0
  replace_with-Waits none r a some_old h = cc
  replace_with-Waits (some old) r a some_old h = (h, refl)

  pub start_update_after-Waits :
      (tag : String) (u : AgentUpdateOptions) (a : Agent C M) (r : Agent C M × Bool)
      → Waits a r.0
      → Waits a (start_update_after tag u r).0
  unfolding update_command
  start_update_after-Waits tag u a (b, true) h = h
  start_update_after-Waits tag u a (b, false) (pending, same) =
      (refl, works-append (command (update_command tag u) ∷ []) b.calls _ refl same)

  pub start_update-Waits :
      (now : ℕ) (tag : String) (u : AgentUpdateOptions) (a : Agent C M)
      → IsPending a
      → Waits a (start_update now tag u a).0
  unfolding start_update
  start_update-Waits now tag u a h =
      let w =
        start_update_after-Waits tag u a (updating now a) (updating_with-Waits now a.update a h) in
      elim (Bool-cases (ltb 0 (length a.deployments))) [ inl e ↦ rw e (h, refl) | inr e ↦ rw e w ]

  module _ (closed : List (AgentCall C) → Bool) (now : ℕ) where
    pub emit_status-Waits :
        (error : Option String) (a b : Agent C M)
        → Waits a b
        → Waits a (emit_status closed now error b)
    emit_status-Waits error a b h =
        let (c, status) = get_connection_status closed now b in
        let (pending, same) = get_connection_status-Waits closed now a b h in
        (
          pending,
          works-append (event (AgentConnectionMessage.status_changed (id_of c) status error) ∷ [])
              c.calls (work a) refl same,
        )

    pub on_connected-Waits : (a : Agent C M) → IsPending a → Waits a (on_connected closed now a)
    unfolding on_connected
    on_connected-Waits a h =
        let subscribed : Agent C M =
          called (subscribe_status ∷ []) (record a { has_status_subscription = true }) in
        let (c, status) = get_connection_status closed now subscribed in
        let (pending, same) =
          get_connection_status-Waits closed now a subscribed
            (h, works-append (subscribe_status ∷ []) a.calls (work a) refl refl) in
        (
          pending,
          works-append
              (event (
                  AgentConnectionMessage.joined (id_of c) c.address status c.version c.connected_at)
                ∷ [])
              c.calls (work a) refl same,
        )

    pub close_updated-Waits : (a b : Agent C M) → Waits a b → Waits a (close_updated closed now b)
    unfolding close
    close_updated-Waits a b (pending, same) = elim (Bool-cases b.has_status_subscription) [
      | inl e ↦ rw e (
          close-Waits (some CloseReason.self_destruct) a (called (unsubscribe_status ∷ []) b)
            (pending, works-append (unsubscribe_status ∷ []) b.calls _ refl same))
      | inr e ↦ rw e (pending, same)
    ]

    pub complete_with-Waits :
        (r : Result String) (a b : Agent C M) → Waits a b → Waits a (complete_with closed now r b).0
    complete_with-Waits (err e) a b h = h
    complete_with-Waits (ok by) a b h = emit_status-Waits none a _ (close_updated-Waits a b h)
