-- ===== src/Accounts/Tokens.antt =====
-- modules/auth/auth.service.ts: refresh tokens (refresh, logout, generateRefreshToken). A raw token is
-- a number that randomUUID gives; access tokens are signed by a library and are left out.
pub mod Laws
use facilpay_api.Common.{
  ℕ, ◌+◌, Bool, true, false, not, Option, none, some, ltb, ◌==◌, if◌then◌else◌, ◌||◌, ⊤, is_some,
}
use facilpay_api.Common.Action.{
  Result, ok, err, unauthorized, failure, ◌>>=◌, ◌>>◌, pure, throw, or_throw, throw_if, gets,
}
use facilpay_api.Accounts.Entities.{RefreshToken, User, Session}
use facilpay_api.Accounts.State.{Accounts, Tables, State, Library, write}
use facilpay_api.Accounts.Users.{find_listed}
use facilpay_api.Accounts.Sessions.{
  session_duration, SessionMetadata, create_session, touch_session,
}

-- What is new in a call: the raw token, and the identifiers of the row and of a session.
pub record Fresh : Type 0 where
  pub raw_token : ℕ
  pub token_id : ℕ
  pub session_id : ℕ

-- A token lives 30 days, as a session does.
pub new_token : Library → Fresh → ℕ → ℕ → Option ℕ → RefreshToken
new_token library fresh now user_id session_id = record {
  id = fresh.token_id;
  token = library.sha256 fresh.raw_token;
  user_id = user_id;
  session_id = session_id;
  expires_at = now + session_duration;
  revoked = false;
  created_at = now;
}

abbrev pub revoked_token : RefreshToken → RefreshToken
revoked_token r = record r { revoked = true }

module _ {db : Accounts} where
  -- `update({ … }, { revoked: true })`
  abbrev pub revoke_tokens : (RefreshToken → Bool) → State db → Result ⊤ × State db
  revoke_tokens p =
      write (λ t. record t {
        refresh_tokens = db.refresh_tokens.update p revoked_token t.refresh_tokens;
      })

  -- A transaction on the tokens: what throws inside it restores them. The sessions are written
  -- outside of the transaction's manager, and stay as they were written.
  unfoldable pub token_transaction :
      {A : Type 0} → (State db → Result A × State db) → State db → Result A × State db
  token_transaction body s =
      let committed = body >>= λ a. write (λ t. t) >> pure a in
      let (r, s') = committed s in
      elim r [
        | ok a ↦ (ok a, s')
        | err e ↦ (
          err e,
          record s' { tables = record s'.tables { refresh_tokens = s.tables.refresh_tokens } },
        )
      ]

  module _ (library : Library) where
    unfoldable pub generate_refresh_token :
        Fresh → ℕ → ℕ → Option ℕ → State db → Result ℕ × State db
    generate_refresh_token fresh now user_id session_id = do
      write (λ t. record t {
        refresh_tokens =
            db.refresh_tokens.save (new_token library fresh now user_id session_id)
              t.refresh_tokens;
      })
      pure fresh.raw_token

    abbrev touch_linked :
        ℕ → SessionMetadata → Option ℕ → State db → Result (Option Session) × State db
    touch_linked now meta none = pure none
    touch_linked now meta (some id) = touch_session now id meta

    -- The session of the token, if it is there, or a new one of the user.
    unfoldable pub continue_session :
        Fresh → ℕ → SessionMetadata → ℕ → Option ℕ → State db → Result ℕ × State db
    continue_session fresh now meta user_id linked = do
      touched ← touch_linked now meta linked
      elim touched [
        | some session ↦ pure session.id
        | none ↦ create_session fresh.session_id now user_id meta >>= λ session. pure session.id
      ]

    -- The tests of a token that is presented. A revoked one revokes all tokens of its user.
    unfoldable pub check_token : ℕ → ℕ → State db → Result RefreshToken × State db
    check_token raw now = do
      t ← gets (λ s. s.tables)
      found ←
          or_throw (db.refresh_tokens.find_one (library.sha256 raw) t.refresh_tokens) unauthorized
      throw_if (ltb found.expires_at now) unauthorized
      if found.revoked
          then revoke_tokens (λ r. r.user_id == found.user_id) >> throw unauthorized
          else pure found

    unfoldable pub rotate :
        Fresh → ℕ → SessionMetadata → RefreshToken → State db → Result ℕ × State db
    rotate fresh now meta found = do
      t ← gets (λ s. s.tables)
      user ← or_throw (find_listed library found.user_id t) unauthorized
      revoke_tokens (λ r. r.id == found.id)
      session_id ← continue_session fresh now meta user.id found.session_id
      generate_refresh_token fresh now user.id (some session_id)

    -- Gives the new raw token.
    unfoldable pub refresh : Fresh → ℕ → ℕ → SessionMetadata → State db → Result ℕ × State db
    refresh fresh now raw meta =
        token_transaction (check_token raw now >>= λ found. rotate fresh now meta found)

    pub logout : ℕ → State db → Result ⊤ × State db
    logout raw = revoke_tokens (λ r. r.token == library.sha256 raw)
