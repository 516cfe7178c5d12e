-- ===== src/Agent/Status.antt =====
-- The connection status of domain/agent.ts and what the agent lets through.
use dyrectorio.Prelude.{
  refl, Bool, Bool-cases, List, false, if◌then◌else◌, inl, inr, is_some, true, ℕ, ◌≡◌,
}
use dyrectorio.AgentCommand.{NodeConnectionStatus, CruxError, Result, err}
use dyrectorio.Agent.{
  Agent, AgentCall, updating, status_after, enabled_after, get_connection_status,
  if_commands_are_enabled,
}

abbrev pub is_connected : NodeConnectionStatus → Bool
is_connected NodeConnectionStatus.connected = true
is_connected NodeConnectionStatus.outdated = false
is_connected NodeConnectionStatus.updating = false
is_connected NodeConnectionStatus.unreachable = false

module _ {C M : Type 0} where
  enabled_after-status_after :
      {A : Type 0} (body : Agent C M → Agent C M × Result A) (r : Agent C M × Bool)
      → enabled_after body r ≡ (
          let (b, status) = status_after r in
          if is_connected status then body b else (b, err CruxError.precondition_failed))
  enabled_after-status_after body (a, true) = refl
  enabled_after-status_after body (a, false) = elim (Bool-cases (is_some a.replacement_token)) [
    | inl e ↦ rw e refl
    | inr e ↦ rw e (elim (Bool-cases a.outdated) [ inl o ↦ rw o refl | inr o ↦ rw o refl ])
  ]

  -- While the command channel is open, a guarded method does what its body says exactly where the
  -- connection status, read at that time, is `connected`; under any other status it throws, and
  -- changes only what reading the status changes.
  pub if_commands_are_enabled-status :
      {A : Type 0} (closed : List (AgentCall C) → Bool) (now : ℕ)
      (body : Agent C M → Agent C M × Result A) (a : Agent C M)
      → closed a.calls ≡ false
      → if_commands_are_enabled now body a ≡ (
          let (b, status) = get_connection_status closed now a in
          if is_connected status then body b else (b, err CruxError.precondition_failed))
  unfolding if_commands_are_enabled get_connection_status
  if_commands_are_enabled-status closed now body a opened =
      rw opened (enabled_after-status_after body (updating now a))
