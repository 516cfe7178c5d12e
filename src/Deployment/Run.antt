-- ===== src/Deployment/Run.antt =====
-- A run of a deployment (the class Deployment of domain/deployment.ts): the messages of the agent,
-- one after the other.
use dyrectorio.Prelude.{
  String, Option, none, some, List, [], ◌∷◌, ◌++◌, map, get_or, ◌or_else◌, append_assoc, append-nil,
  ◌≡◌, refl, sym, ◌∙◌, ap,
}
use dyrectorio.Merge.Squash.{last_defined}
use dyrectorio.Deployment.{
  Deployment, DeploymentStatus, DeploymentStatusMessage, StoredStatus, next, complete, valid,
  reported_status, new_deployment, started_message, start, on_update, on_disconnected, new_status,
}

pub updates : Deployment → List DeploymentStatusMessage → Deployment
updates d [] = d
updates d (m ∷ ms) = updates (on_update d m).0 ms

abbrev pub reported : DeploymentStatusMessage → Option StoredStatus
reported m = reported_status m.deployment_status

get_or-or_else :
    (a b : Option StoredStatus) (d : StoredStatus)
    → get_or a (new_status b d) ≡ get_or (a or_else b) d
get_or-or_else (some a) b d = refl
get_or-or_else none (some b) d = refl
get_or-or_else none none d = refl

updates-status :
    (d : Deployment) (ms : List DeploymentStatusMessage)
    → (updates d ms).status ≡ get_or (last_defined (map reported ms)) d.status
unfolding updates on_update
updates-status d [] = refl
updates-status d (m ∷ ms) =
    updates-status (on_update d m).0 ms
    ∙ get_or-or_else (last_defined (map reported ms)) (reported m) d.status

updates-channel :
    (d : Deployment) (ms : List DeploymentStatusMessage)
    → (updates d ms).status_channel ≡ d.status_channel ++ map next ms
unfolding updates on_update
updates-channel d [] = sym (append-nil d.status_channel)
updates-channel d (m ∷ ms) =
    updates-channel (on_update d m).0 ms ∙ append_assoc d.status_channel (next m ∷ []) (map next ms)

-- A deployment that is started, gets messages from the agent and is then disconnected ends in the
-- last status that a message reported, or in progress if none did, and its status channel has got
-- the starting message, each message in order and then the completion.
pub on_disconnected-updates :
    (id : String) (ms : List DeploymentStatusMessage)
    → ((on_disconnected (updates (start (new_deployment id)) ms)).status
        ≡ get_or (last_defined (map reported ms)) (valid DeploymentStatus.in_progress))
      × ((on_disconnected (updates (start (new_deployment id)) ms)).status_channel
          ≡ next started_message ∷ map next ms ++ complete ∷ [])
unfolding on_disconnected start new_deployment
on_disconnected-updates id ms = (
  updates-status (start (new_deployment id)) ms,
  ap (λ c. c ++ complete ∷ []) (updates-channel (start (new_deployment id)) ms),
)
