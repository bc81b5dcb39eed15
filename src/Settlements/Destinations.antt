-- ===== src/Settlements/Destinations.antt =====
-- modules/settlements/settlements.service.ts: payout destinations and the configuration of
-- settlements. The step-up token, the check of the Stellar address, the address of the merchant and
-- the result of sending it a mail are given; authService, stellarService and auditLogsService, which
-- the constructor does not take, are read as the services of these names.
use facilpay_api.Common.{
  ℕ, ◌+◌, ◌*◌, Bool, true, false, not, ◌&&◌, Option, none, some, [], ◌∷◌, ltb, ◌==◌, if◌then◌else◌,
  first, is_some, some_eq, ⊤,
}
use facilpay_api.Common.Int.{pos}
use facilpay_api.Common.Action.{
  Result, not_found, bad_request, ◌>>=◌, ◌>>◌, pure, or_throw, throw_if, gets,
}
use facilpay_api.Settlements.Entities.{
  SettlementSchedule, MerchantSettlementConfig, PayoutDestination,
}
use facilpay_api.Settlements.State.{Ledger, Tables, State, Sent, AuditAction, write, emit}

pub record CreatePayoutDestinationDto : Type 0 where
  pub label : ℕ
  pub stellar_address : ℕ
  pub asset_code : ℕ
  pub is_default : Option Bool

pub record UpsertSettlementConfigDto : Type 0 where
  pub schedule : SettlementSchedule
  pub currency : ℕ
  pub destination_id : Option ℕ

-- What a change of a destination is given: the time, the new token, the answers of other services,
-- SHA-256, and `toUpperCase` on the code of an asset.
pub record Outside : Type 0 where
  pub now : ℕ
  pub token : ℕ
  pub step_up : Result ⊤
  pub valid_address : Result ⊤
  -- `usersService.findOne(merchantId)`: its email
  pub merchant : Result (Option ℕ)
  pub mailed : Result ⊤
  pub sha256 : ℕ → ℕ
  pub upper : ℕ → ℕ

abbrev pub cooling_off : ℕ
cooling_off = 24 * 60 * 60 * 1000

abbrev pub is_true : Option Bool → Bool
is_true none = false
is_true (some b) = b

-- What create and update set alike: the destination has to be verified (again).
pub unverified : Outside → CreatePayoutDestinationDto → PayoutDestination → PayoutDestination
unverified outside dto d = record d {
  label = dto.label;
  stellar_address = dto.stellar_address;
  asset_code = outside.upper dto.asset_code;
  is_default = false;
  verified_at = none;
  cooling_off_until = some (outside.now + cooling_off);
  verification_token_hash = some (outside.sha256 outside.token);
  verification_token_expires_at = some (outside.now + cooling_off);
}

pub new_destination : Outside → ℕ → ℕ → CreatePayoutDestinationDto → PayoutDestination
new_destination outside new merchant dto = unverified outside dto (record {
  id = new;
  merchant_id = merchant;
  label = 0;
  stellar_address = 0;
  asset_code = 0;
  is_default = false;
  verified_at = none;
  cooling_off_until = none;
  verification_token_hash = none;
  verification_token_expires_at = none;
})

pub verified : ℕ → PayoutDestination → PayoutDestination
verified now d = record d {
  verified_at = some now;
  verification_token_hash = none;
  verification_token_expires_at = none;
}

-- The token is in time and its hash is the stored one.
pub is_verification : Outside → ℕ → PayoutDestination → Bool
is_verification outside token d = elim d.verification_token_expires_at [
  | none ↦ false
  | some at ↦ not (ltb at outside.now) && some_eq d.verification_token_hash (outside.sha256 token)
]

-- `destination.coolingOffUntil && destination.coolingOffUntil > new Date()`
unfoldable pub is_cooling_off : ℕ → PayoutDestination → Bool
is_cooling_off now d = elim d.cooling_off_until [ none ↦ false | some until ↦ ltb now until ]

-- The other destinations of the merchant for the asset.
pub is_rival : PayoutDestination → PayoutDestination → Bool
is_rival saved d =
    (d.merchant_id == saved.merchant_id)
    && (d.asset_code == saved.asset_code)
    && not (d.id == saved.id)

pub configured : UpsertSettlementConfigDto → MerchantSettlementConfig → MerchantSettlementConfig
configured dto c = record c { schedule = dto.schedule; destination_id = dto.destination_id }

pub new_config : ℕ → ℕ → UpsertSettlementConfigDto → MerchantSettlementConfig
new_config new user_id dto = record {
  id = new;
  user_id = user_id;
  schedule = dto.schedule;
  currency = dto.currency;
  destination_id = dto.destination_id;
  last_settled_at = none;
  reserve_percent = 0;
  reserve_days = 0;
  total_reserved_amount = pos 0;
}

pub merged :
    ℕ → ℕ → UpsertSettlementConfigDto → Option MerchantSettlementConfig → MerchantSettlementConfig
merged new user_id dto none = new_config new user_id dto
merged new user_id dto (some c) = configured dto c

module _ {db : Ledger} where
  abbrev pub save_destination : PayoutDestination → State db → Result ⊤ × State db
  save_destination d =
      write (λ t. record t { destinations = db.destinations.save d t.destinations })

  -- `auditLogsService.record`, a write that may throw.
  abbrev pub record_audit : AuditAction → ℕ → State db → Result ⊤ × State db
  record_audit action id = write (λ t. t) >> emit (Sent.audit action id ∷ [])

  -- `findOneBy({ id, merchantId })`
  abbrev pub own_destination : ℕ → ℕ → Tables db → Option PayoutDestination
  own_destination merchant id t = elim (db.destinations.find_one id t.destinations) [
    | none ↦ none
    | some d ↦ if d.merchant_id == merchant then some d else none
  ]

  -- The mail that is sent when the merchant has an address; what its user or the mail throws is thrown.
  pub mail_token : Outside → PayoutDestination → State db → Result ⊤ × State db
  mail_token outside d = do
    email ← λ s. (outside.merchant, s)
    elim email [
      | none ↦ pure tt
      | some address ↦
          emit (Sent.verification address d.id outside.token ∷ []) >> λ s. (outside.mailed, s)
    ]

  pub make_default :
      Option Bool → PayoutDestination → State db → Result PayoutDestination × State db
  make_default wanted d =
      if is_true wanted
      then (do
        write (λ t. record t {
          destinations =
              db.destinations.update (is_rival d) (λ r. record r { is_default = false })
                t.destinations;
        })
        save_destination (record d { is_default = true })
        pure (record d { is_default = true }))
      else pure d

  pub create_payout_destination :
      Outside → ℕ → ℕ → CreatePayoutDestinationDto → State db → Result PayoutDestination × State db
  create_payout_destination outside new merchant dto = do
    λ s. (outside.step_up, s)
    λ s. (outside.valid_address, s)
    save_destination (new_destination outside new merchant dto)
    mail_token outside (new_destination outside new merchant dto)
    record_audit AuditAction.payout_destination_created new
    make_default dto.is_default (new_destination outside new merchant dto)

  pub verify_payout_destination :
      Outside → ℕ → ℕ → ℕ → State db → Result PayoutDestination × State db
  verify_payout_destination outside merchant id token = do
    d ← λ s. or_throw (own_destination merchant id s.tables) not_found s
    throw_if (not (is_verification outside token d)) bad_request
    save_destination (verified outside.now d)
    record_audit AuditAction.payout_destination_verified id
    pure (verified outside.now d)

  pub update_payout_destination :
      Outside → ℕ → ℕ → CreatePayoutDestinationDto → State db → Result PayoutDestination × State db
  update_payout_destination outside merchant id dto = do
    λ s. (outside.step_up, s)
    d ← λ s. or_throw (own_destination merchant id s.tables) not_found s
    λ s. (outside.valid_address, s)
    save_destination (unverified outside dto d)
    mail_token outside (unverified outside dto d)
    record_audit AuditAction.payout_destination_updated id
    pure (unverified outside dto d)

  unfoldable pub get_eligible_destination :
      ℕ → ℕ → ℕ → ℕ → State db → Result PayoutDestination × State db
  get_eligible_destination now merchant id currency = do
    d ← λ s. or_throw (own_destination merchant id s.tables) bad_request s
    throw_if (not (d.asset_code == currency)) bad_request
    throw_if (not (is_some d.verified_at)) bad_request
    throw_if (is_cooling_off now d) bad_request
    pure d

  pub check_destination : ℕ → ℕ → UpsertSettlementConfigDto → State db → Result ⊤ × State db
  check_destination now user_id dto = elim dto.destination_id [
    | none ↦ pure tt
    | some id ↦ get_eligible_destination now user_id id dto.currency >> pure tt
  ]

  pub upsert_config :
      ℕ → ℕ → ℕ → UpsertSettlementConfigDto → State db → Result MerchantSettlementConfig × State db
  upsert_config now new user_id dto = do
    found ← gets (λ s. first (
        db.configs.find (λ c. (c.user_id == user_id) && (c.currency == dto.currency))
          s.tables.configs))
    let config = merged new user_id dto found
    check_destination now user_id dto
    write (λ t. record t { configs = db.configs.save config t.configs })
    pure config
