-- ===== src/Accounts/Sessions.antt =====
-- modules/sessions/sessions.service.ts. The identifier of a new row is given.
use facilpay_api.Common.{
  ℕ, ◌+◌, ◌*◌, true, false, not, Option, none, some, ◌==◌, some_eq, or_other, ⊤,
}
use facilpay_api.Common.Action.{Result, not_found, forbidden, ◌>>=◌, ◌>>◌, pure, or_throw, throw_if}
use facilpay_api.Accounts.Entities.{Session}
use facilpay_api.Accounts.State.{Accounts, State, write}

-- 30 days
abbrev pub session_duration : ℕ
session_duration = 30 * 24 * 60 * 60 * 1000

-- The address and the agent of a request.
pub record SessionMetadata : Type 0 where
  pub ip_address : Option ℕ
  pub user_agent : Option ℕ

unfoldable pub new_session : ℕ → ℕ → ℕ → SessionMetadata → Session
new_session new now user_id meta = record {
  id = new;
  user_id = user_id;
  device_info = none;
  ip_address = meta.ip_address;
  user_agent = meta.user_agent;
  last_active_at = now;
  expires_at = now + session_duration;
  revoked = false;
  created_at = now;
}

pub touched : ℕ → SessionMetadata → Session → Session
touched now meta session = record session {
  last_active_at = now;
  expires_at = now + session_duration;
  ip_address = or_other meta.ip_address session.ip_address;
  user_agent = or_other meta.user_agent session.user_agent;
}

module _ {db : Accounts} where
  abbrev save_session : Session → State db → Result ⊤ × State db
  save_session session = write (λ t. record t { sessions = db.sessions.save session t.sessions })

  unfoldable pub create_session : ℕ → ℕ → ℕ → SessionMetadata → State db → Result Session × State db
  create_session new now user_id meta = do
    save_session (new_session new now user_id meta)
    pure (new_session new now user_id meta)

  unfoldable pub touch_session :
      ℕ → ℕ → SessionMetadata → State db → Result (Option Session) × State db
  touch_session now id meta s = elim (db.sessions.find_one id s.tables.sessions) [
    | none ↦ pure none s
    | some session ↦
        (save_session (touched now meta session) >> pure (some (touched now meta session))) s
  ]

  pub revoke_for_user : ℕ → ℕ → State db → Result ⊤ × State db
  revoke_for_user id user_id = do
    session ← λ s. or_throw (db.sessions.find_one id s.tables.sessions) not_found s
    throw_if (not (session.user_id == user_id)) forbidden
    save_session (record session { revoked = true })
    write (λ t. record t {
      refresh_tokens =
          db.refresh_tokens.update (λ r. some_eq r.session_id session.id)
            (λ r. record r { revoked = true }) t.refresh_tokens;
    })
