-- ===== src/Merchants/ApiKeys/Guard.antt =====
-- modules/api-keys/api-key-auth.guard.ts: a request with an API key.
use facilpay_api.Common.{
  ℕ, ◌≡◌, refl, ◌∙◌, ap, Bool, true, false, not, ◌&&◌, Option, none, some, List, [], is_empty, any,
  includes, or_other, ⊤,
}
use facilpay_api.Common.Action.{
  Result, ok, unauthorized, forbidden, ◌>>=◌, ◌>>◌, pure, or_throw, throw_if, bind_step,
}
use facilpay_api.Merchants.Ip.{Request}
use facilpay_api.Merchants.ApiKeys.{ApiKey, Library, Keys, State, is_past, validate_key}
use facilpay_api.Merchants.ApiKeys.Rotation.{active_accepted}

pub record KeyRequest : Type 0 where
  -- after `ApiKey ` in the header `Authorization`, and in `X-Api-Key`
  pub authorization : Option ℕ
  pub x_api_key : Option ℕ
  -- the addresses of the request
  pub source : Request

abbrev pub extract_key : KeyRequest → Option ℕ
extract_key request = or_other request.authorization request.x_api_key

-- One of the required scopes is granted.
abbrev pub has_required_scope : List ℕ → List ℕ → Bool
has_required_scope granted required = any (λ scope. includes scope granted) required

module _ {db : Keys} (library : Library) where
  pub validate_scopes : List ℕ → ApiKey → State db → Result ⊤ × State db
  validate_scopes required key =
      throw_if (not (is_empty required) && not (has_required_scope key.scopes required)) forbidden

  -- The key is validated without an address. The usage is recorded after the response.
  pub can_activate : ℕ → List ℕ → KeyRequest → State db → Result ApiKey × State db
  can_activate now required request = do
    plaintext ← or_throw (extract_key request) unauthorized
    key ← validate_key library now plaintext none
    validate_scopes required key
    pure key

  -- A request with a plain text whose hash is that of an active key, that has not expired and has one
  -- of the scopes, if any is required, is let in when no write fails, whatever its addresses are and
  -- whatever addresses the key allows.
  can_activate_anywhere :
      (now plaintext : ℕ) (required : List ℕ) (request : KeyRequest) (key : ApiKey) (s : State db)
      → extract_key request ≡ some plaintext
      → db.api_keys.find_one (library.sha256 plaintext) s.tables.api_keys ≡ some key
      → key.is_active ≡ true
      → is_past now key.expires_at ≡ false
      → (not (is_empty required) && not (has_required_scope key.scopes required)) ≡ false
      → s.faults ≡ []
      → (can_activate now required request s).0 ≡ ok (record key { last_used_at = some now })
  unfolding can_activate validate_scopes
  can_activate_anywhere now plaintext required request key s has_key here active valid scoped f =
      let used = record key { last_used_at = some now } in
      let accepted = active_accepted library now plaintext none key s here active valid refl f in
      let validate = validate_key library now plaintext none in
      let finish : ApiKey → State db → Result ApiKey × State db =
        λ k. validate_scopes required k >> pure k in
      rw (has_key) (ap (λ r. r.0) (bind_step validate finish s used accepted) ∙ rw (scoped) refl)
