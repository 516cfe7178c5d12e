-- ===== src/AgentUpdate.antt =====
-- domain/agent-update.ts: an update of the program of an agent. `new Date().getTime()` is the
-- argument `now`; where it is before the start of the update, both differences are below the limit.
use dyrectorio.Prelude.{ℕ, String, Bool, not, leb, ◌-◌, ◌*◌, ◌==◌, string_eq, if◌then◌else◌}
use dyrectorio.AgentCommand.{AgentCommand, CruxError, Result, ok, err}

-- `AgentToken` of domain/agent-token.ts; `iss` is set by the library that signs.
pub record AgentToken : Type 0 where
  pub sub : String
  pub iat : ℕ
  pub nonce : String
  pub version : String
  pub is_install : Bool

pub record AgentUpdateOptions : Type 0 where
  pub token : AgentToken
  pub signed_token : String
  pub started_at : ℕ
  pub started_by : String

abbrev pub timeout_seconds : ℕ
timeout_seconds = 60 * 5

unfoldable pub expired : ℕ → AgentUpdateOptions → Bool
expired now u = leb (timeout_seconds * 1000) (now - u.started_at)

-- The command that `start` sends.
unfoldable pub update_command : String → AgentUpdateOptions → AgentCommand
update_command tag u = AgentCommand.update tag timeout_seconds u.signed_token

-- `complete`, with the signed token of the connection; its result is who started the update.
unfoldable pub complete_update : ℕ → String → AgentUpdateOptions → Result String
unfolding expired
complete_update now jwt u =
    if expired now u
    then err CruxError.precondition_failed
    else if not (jwt == u.signed_token)
    then err CruxError.unauthorized
    else ok u.started_by
