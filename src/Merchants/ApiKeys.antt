-- ===== src/Merchants/ApiKeys.antt =====
-- modules/api-keys: api-keys.service.ts and its entities. A key in plain text is a number; its random
-- part, its prefix and SHA-256 are given. The table of keys is looked up by the unique column
-- `keyHash`.
use facilpay_api.Common.{
  ℕ, ◌+◌, ◌*◌, ◌-◌, Bool, true, false, not, ◌&&◌, ◌||◌, Option, none, some, List, [], ◌∷◌, ltb,
  ◌==◌, if◌then◌else◌, first, or_else, is_empty, is_some, ⊤,
}
use facilpay_api.Common.Action.{
  Result, ok, err, not_found, unauthorized, ◌>>=◌, ◌>>◌, pure, or_throw, throw_if, gets,
}
use facilpay_api.Common.Store.{Store, write, emit}
use facilpay_api.Common.Text.{Text}
use facilpay_api.Repository.{Repository}
use facilpay_api.Merchants.Ip.{Net, is_ip_allowed}
pub mod Rotation
pub mod Guard

pub data ApiKeyScope : Type 0 where
  read write_ admin : ApiKeyScope

pub data ApiKeyEnvironment : Type 0 where
  live test : ApiKeyEnvironment

pub record ApiKey : Type 0 where
  pub id : ℕ
  pub name : ℕ
  pub key_hash : ℕ
  pub key_prefix : ℕ
  pub user_id : ℕ
  pub scope : Option ApiKeyScope
  pub scopes : List ℕ
  pub environment : ApiKeyEnvironment
  pub expires_at : Option ℕ
  pub last_used_at : Option ℕ
  pub is_active : Bool
  pub rate_limit_limit : Option ℕ
  pub rate_limit_ttl : Option ℕ
  pub allowed_ips : List Text

pub record ApiKeyUsage : Type 0 where
  pub id : ℕ
  pub api_key_id : ℕ
  pub endpoint : ℕ
  pub method : ℕ
  pub source_ip : Option ℕ
  pub user_agent : Option ℕ
  pub status_code : Option ℕ
  pub created_at : ℕ

pub record CreateApiKeyDto : Type 0 where
  pub name : ℕ
  pub scope : Option ApiKeyScope
  pub scopes : List ℕ
  pub environment : Option ApiKeyEnvironment
  pub expires_at : Option ℕ
  pub rate_limit_limit : Option ℕ
  pub rate_limit_ttl : Option ℕ
  pub allowed_ips : List Text

-- none: the field is left alone
pub record UpdateApiKeyDto : Type 0 where
  pub name : Option ℕ
  pub scope : Option ApiKeyScope
  pub rate_limit_limit : Option (Option ℕ)
  pub rate_limit_ttl : Option (Option ℕ)
  pub allowed_ips : Option (List Text)

pub data AuditAction : Type 0 where
  api_key_created api_key_revoked api_key_rotated : AuditAction

-- What is new in a call: the identifier of the row and the random bytes.
pub record Fresh : Type 0 where
  pub id : ℕ
  pub raw_token : ℕ

pub record Library : Type 0 where
  -- the prefix of the environment, and the random part
  pub plaintext : ApiKeyEnvironment → ℕ → ℕ
  -- `plaintext.slice(0, 12)`
  pub slice_prefix : ℕ → ℕ
  pub sha256 : ℕ → ℕ
  pub net : Net

pub record Keys : Type 1 where
  pub api_keys : Repository ApiKey (λ r. r.key_hash)
  pub usage : Repository ApiKeyUsage (λ r. r.id)

module _ (db : Keys) where
  pub record Tables : Type 0 where
    pub api_keys : db.api_keys.Table
    pub usage : db.usage.Table

abbrev pub State : Keys → Type 0
State db = Store (Tables db) AuditAction

abbrev pub deactivated : ApiKey → ApiKey
deactivated key = record key { is_active = false }

abbrev pub edited : UpdateApiKeyDto → ApiKey → ApiKey
edited dto key = record key {
  name = or_else dto.name key.name;
  scope = elim dto.scope [ none ↦ key.scope | some scope ↦ some scope ];
  rate_limit_limit = or_else dto.rate_limit_limit key.rate_limit_limit;
  rate_limit_ttl = or_else dto.rate_limit_ttl key.rate_limit_ttl;
  allowed_ips = or_else dto.allowed_ips key.allowed_ips;
}

abbrev pub is_past : ℕ → Option ℕ → Bool
is_past now none = false
is_past now (some at) = ltb at now

-- An address that is known is tested, if the key has a list.
abbrev pub is_denied : Net → Option Text → List Text → Bool
is_denied net none allowed = false
is_denied net (some ip) allowed = not (is_empty allowed) && not (is_ip_allowed net ip allowed)

module _ (library : Library) where
  pub new_key : Fresh → ℕ → CreateApiKeyDto → ApiKey
  new_key fresh user_id dto =
      let environment = or_else dto.environment ApiKeyEnvironment.live in
      let plaintext = library.plaintext environment fresh.raw_token in
      record {
        id = fresh.id;
        name = dto.name;
        key_hash = library.sha256 plaintext;
        key_prefix = library.slice_prefix plaintext;
        user_id = user_id;
        scope = some (or_else dto.scope ApiKeyScope.read);
        scopes = dto.scopes;
        environment = environment;
        expires_at = dto.expires_at;
        last_used_at = none;
        is_active = true;
        rate_limit_limit = dto.rate_limit_limit;
        rate_limit_ttl = dto.rate_limit_ttl;
        allowed_ips = dto.allowed_ips;
      }

  abbrev pub rotated_plaintext : Fresh → ApiKey → ℕ
  rotated_plaintext fresh key = library.plaintext key.environment fresh.raw_token

  unfoldable pub rotated_key : Fresh → ApiKey → ApiKey
  rotated_key fresh key = record key {
    id = fresh.id;
    key_hash = library.sha256 (rotated_plaintext fresh key);
    key_prefix = library.slice_prefix (rotated_plaintext fresh key);
    last_used_at = none;
    is_active = true;
  }

  module _ {db : Keys} where
    abbrev pub save_key : ApiKey → State db → Result ⊤ × State db
    save_key key = write (λ t. record t { api_keys = db.api_keys.save key t.api_keys })

    abbrev pub record_audit : AuditAction → State db → Result ⊤ × State db
    record_audit action = write (λ t. t) >> emit (action ∷ [])

    -- `findOne({ where: { id, userId } })`, for the active ones only if asked
    unfoldable pub find_own : Bool → ℕ → ℕ → State db → Result ApiKey × State db
    find_own only_active id user_id s =
        or_throw
          (first (
            db.api_keys.find
              (λ r. ((r.id == id) && (r.user_id == user_id)) && (not only_active || r.is_active))
              s.tables.api_keys))
          not_found s

    unfoldable pub create : Fresh → ℕ → CreateApiKeyDto → State db → Result ApiKey × State db
    create fresh user_id dto = do
      save_key (new_key fresh user_id dto)
      record_audit AuditAction.api_key_created
      pure (new_key fresh user_id dto)

    pub revoke : ℕ → ℕ → State db → Result ⊤ × State db
    revoke id user_id = do
      key ← find_own false id user_id
      save_key (deactivated key)
      record_audit AuditAction.api_key_revoked

    unfoldable pub update : ℕ → ℕ → UpdateApiKeyDto → State db → Result ApiKey × State db
    update id user_id dto = do
      key ← find_own true id user_id
      save_key (edited dto key)
      pure (edited dto key)

    -- The two writes are not in a transaction.
    unfoldable pub replace_key : Fresh → ApiKey → State db → Result ApiKey × State db
    replace_key fresh key = do
      save_key (deactivated key)
      save_key (rotated_key fresh key)
      record_audit AuditAction.api_key_rotated
      pure (rotated_key fresh key)

    unfoldable pub rotate : Fresh → ℕ → ℕ → State db → Result ApiKey × State db
    rotate fresh id user_id = do key ← find_own true id user_id; replace_key fresh key

    pub validate_key : ℕ → ℕ → Option Text → State db → Result ApiKey × State db
    validate_key now plaintext source_ip = do
      t ← gets (λ s. s.tables)
      key ← or_throw (db.api_keys.find_one (library.sha256 plaintext) t.api_keys) unauthorized
      throw_if (not key.is_active) unauthorized
      throw_if (is_past now key.expires_at) unauthorized
      throw_if (is_denied library.net source_ip key.allowed_ips) unauthorized
      save_key (record key { last_used_at = some now })
      pure (record key { last_used_at = some now })

    pub record_usage : ApiKeyUsage → State db → Result ⊤ × State db
    record_usage usage = write (λ t. record t { usage = db.usage.save usage t.usage })

    -- What is older than the days that usage is kept is deleted.
    pub prune_old_usage_records : ℕ → ℕ → State db → Result ⊤ × State db
    prune_old_usage_records now retention_days = write (λ t. record t {
      usage =
          db.usage.delete (λ u. ltb (u.created_at + retention_days * 24 * 60 * 60 * 1000) now)
            t.usage;
    })
