-- ===== src/Agent/Consistent.antt =====
-- What the methods of domain/agent.ts keep of the deployments and the update of an agent.
use dyrectorio.Prelude.{
  Bool, Bool-cases, List, Option, String, [], all, arith, beq_refl, false, inl, inr, is_some,
  lookup, map, none, refl, set, some, true, ℕ, ◌==◌, ◌||◌, ◌∷◌, ◌≡◌, ◌⊎◌, string_eq, nat_eq, any,
  all-map, ◌∙◌,
}
use dyrectorio.AgentCommand.{CallbackType, Result}
use dyrectorio.AgentUpdate.{AgentUpdateOptions, expired}
use dyrectorio.AgentCallback.{AgentCallback}
use dyrectorio.ContainerLogStream
use dyrectorio.ContainerLogStream.{ContainerLogStream, new_stream}
use dyrectorio.ContainerLogStream.Replay
use dyrectorio.ContainerStatusWatcher.{ContainerStatusWatcher}
use dyrectorio.ContainerStatusWatcher.Lifecycle
use dyrectorio.Deployment
use dyrectorio.Deployment.{Deployment, DeploymentStatusMessage, on_update, on_disconnected}
use dyrectorio.Agent.{
  Agent, AgentCall, AgentTokenReplacement, deploy_enabled, updating, updating_with,
  get_connection_status, status_after, if_commands_are_enabled, enabled_after,
}
use dyrectorio.Agent.Streams.{
  upsert_watcher, upsert_stream, delete_log_stream, watcher_stream_started, stream_started,
  watcher_stream_finished,
}
use dyrectorio.Agent.Callbacks.{with_callback}
use dyrectorio.Agent.Updates.{replace_with}
use dyrectorio.Agent.Steps.{is_free, watcher_stepped, log_after, log_stepped}

abbrev pub is_own : String × Deployment → Bool
is_own e = e.1.id == e.0

pub all-set :
    (k : String) (d : Deployment) (m : List (String × Deployment))
    → all is_own m ≡ true
    → (d.id == k) ≡ true
    → all is_own (set k d m) ≡ true
all-set k d [] h own = ground (arith, own)
all-set k d ((j, e) ∷ m) h own = ground (arith, own, h, all-set k d m)

pub all-on_disconnected :
    (m : List (String × Deployment))
    → all is_own m ≡ true
    → all is_own (map (λ e. (e.0, on_disconnected e.1)) m) ≡ true
unfolding on_disconnected
all-on_disconnected m h = all-map is_own (λ e. (e.0, on_disconnected e.1)) m ∙ h

module _ {C M : Type 0} where
  -- A deployment is stored under its own id, and none is there while an update runs.
  abbrev pub IsConsistent : Agent C M → Type 0
  IsConsistent a = (all is_own a.deployments ≡ true) × (a.update ≡ none ⊎ a.deployments ≡ [])

  -- Deployments and the update are as before.
  abbrev pub Same : Agent C M → Agent C M → Type 0
  Same a b = (b.deployments ≡ a.deployments) × (b.update ≡ a.update)

  pub Same-IsConsistent : (a b : Agent C M) → Same a b → IsConsistent a → IsConsistent b
  Same-IsConsistent a b (deps, upd) h = rw (deps, upd) h

  pub updating_with-IsConsistent :
      (now : ℕ) (u : Option AgentUpdateOptions) (a : Agent C M)
      → a.update ≡ u
      → IsConsistent a
      → let r = updating_with now u a in IsConsistent r.0 × (r.1 ≡ false → r.0.update ≡ none)
  updating_with-IsConsistent now none a e h = (h, λ f. e)
  updating_with-IsConsistent now (some u) a e (own, free) = elim (Bool-cases (expired now u)) [
    | inl late ↦ rw late ((own, inl refl), λ f. refl)
    | inr early ↦ rw early ((own, free), λ f. cc)
  ]

  pub status_after-IsConsistent :
      (r : Agent C M × Bool) → IsConsistent r.0 → IsConsistent (status_after r).0
  status_after-IsConsistent (b, true) h = h
  status_after-IsConsistent (b, false) h = elim (Bool-cases (is_some b.replacement_token)) [
    | inl e ↦ rw e h
    | inr e ↦ rw e (elim (Bool-cases b.outdated) [ inl o ↦ rw o h | inr o ↦ rw o h ])
  ]

  pub get_connection_status-IsConsistent :
      (closed : List (AgentCall C) → Bool) (now : ℕ) (a : Agent C M)
      → IsConsistent a
      → IsConsistent (get_connection_status closed now a).0
  unfolding get_connection_status
  get_connection_status-IsConsistent closed now a h =
      let u = updating_with-IsConsistent now a.update a refl h in
      let inner = status_after-IsConsistent (updating now a) u.0 in
      elim (Bool-cases (closed a.calls)) [ inl e ↦ rw e h | inr e ↦ rw e inner ]

  pub enabled_after-IsConsistent :
      {A : Type 0} (body : Agent C M → Agent C M × Result A) (r : Agent C M × Bool)
      → ((b : Agent C M) → b.update ≡ none → IsConsistent b → IsConsistent (body b).0)
      → (r.1 ≡ false → r.0.update ≡ none)
      → IsConsistent r.0
      → IsConsistent (enabled_after body r).0
  enabled_after-IsConsistent body (b, true) safe free h = h
  enabled_after-IsConsistent body (b, false) safe free h =
      elim (Bool-cases (is_some b.replacement_token || b.outdated)) [
        | inl e ↦ rw e h
        | inr e ↦ rw e (safe b (free refl) h)
      ]

  pub if_commands_are_enabled-IsConsistent :
      {A : Type 0} (now : ℕ) (body : Agent C M → Agent C M × Result A) (a : Agent C M)
      → ((b : Agent C M) → b.update ≡ none → IsConsistent b → IsConsistent (body b).0)
      → IsConsistent a
      → IsConsistent (if_commands_are_enabled now body a).0
  unfolding if_commands_are_enabled
  if_commands_are_enabled-IsConsistent now body a safe h =
      let u = updating_with-IsConsistent now a.update a refl h in
      enabled_after-IsConsistent body (updating now a) safe u.1 u.0

  pub deploy_enabled-IsConsistent :
      (d : Deployment) (b : Agent C M)
      → b.update ≡ none
      → IsConsistent b
      → IsConsistent (deploy_enabled d b).0
  unfolding Deployment.start
  deploy_enabled-IsConsistent d b free (own, either) =
      elim (Bool-cases (is_some (lookup d.id b.deployments))) [
        | inl e ↦ rw e (own, either)
        | inr e ↦
            rw e (all-set d.id (Deployment.start d) b.deployments own (beq_refl d.id), inl free)
      ]

  pub upsert_watcher-Same :
      (w : Option (ContainerStatusWatcher C)) (prefix : String) (one_shot : Bool) (b : Agent C M)
      → Same b (upsert_watcher w prefix one_shot b).0
  upsert_watcher-Same none prefix one_shot b = (refl, refl)
  upsert_watcher-Same (some w) prefix one_shot b = (refl, refl)

  pub upsert_stream-Same :
      (s created : Option (ContainerLogStream M)) (key : String) (b : Agent C M)
      → Same b (upsert_stream s created key b).0
  upsert_stream-Same none none key b = (refl, refl)
  upsert_stream-Same none (some s) key b = (refl, refl)
  upsert_stream-Same (some s) none key b = (refl, refl)
  upsert_stream-Same (some s) (some created) key b = (refl, refl)

  pub with_callback-Same :
      (type : CallbackType) (c : AgentCallback) (a : Agent C M) → Same a (with_callback type c a)
  with_callback-Same CallbackType.list_secrets c a = (refl, refl)
  with_callback-Same CallbackType.container_log c a = (refl, refl)
  with_callback-Same CallbackType.container_inspect c a = (refl, refl)
  with_callback-Same CallbackType.delete_containers c a = (refl, refl)

  pub watcher_stream_finished-Same :
      (prefix : String) (w : Option (ContainerStatusWatcher C)) (a : Agent C M)
      → Same a (watcher_stream_finished prefix w a)
  watcher_stream_finished-Same prefix none a = (refl, refl)
  watcher_stream_finished-Same prefix (some w) a = (refl, refl)

  pub stream_started-Same :
      (prefix : String) (w : Option (ContainerStatusWatcher C)) (a : Agent C M)
      → Same a (stream_started prefix w a).0
  stream_started-Same prefix none a = (refl, refl)
  stream_started-Same prefix (some w) a = (refl, refl)

  pub watcher_stream_started-Same :
      (prefix : String) (w : Option (ContainerStatusWatcher C)) (a : Agent C M)
      → Same a (watcher_stream_started prefix w a).0
  watcher_stream_started-Same prefix none a = (refl, refl)
  watcher_stream_started-Same prefix (some w) a = stream_started-Same prefix _ a

  pub watcher_stepped-Same :
      (w : Option (ContainerStatusWatcher C)) (prefix : String) (e : Lifecycle.Event C)
      (a : Agent C M)
      → Same a (watcher_stepped w prefix e a)
  watcher_stepped-Same none prefix e a = (refl, refl)
  watcher_stepped-Same (some w) prefix e a = (refl, refl)

  pub log_after-Same :
      (o : Option (ContainerLogStream M × List (ContainerLogStream.Effect M))) (key : String)
      (a : Agent C M)
      → Same a (log_after o key a)
  unfolding delete_log_stream
  log_after-Same none key a = (refl, refl)
  log_after-Same (some (stream, effects)) key a = elim (Bool-cases (any is_free effects)) [
    | inl e ↦ rw e (refl, refl)
    | inr e ↦ rw e (refl, refl)
  ]

  pub log_stepped-Same :
      (s : Option (ContainerLogStream M)) (key : String) (e : Replay.Event M) (a : Agent C M)
      → Same a (log_stepped s key e a)
  log_stepped-Same none key e a = (refl, refl)
  log_stepped-Same (some s) key e a = log_after-Same (Replay.step s e) key a

  pub replace_with-Same :
      (old : Option AgentTokenReplacement) (r : AgentTokenReplacement) (a : Agent C M)
      → Same a (replace_with old r a).0
  replace_with-Same none r a = (refl, refl)
  replace_with-Same (some old) r a = (refl, refl)
