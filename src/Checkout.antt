-- ===== src/Checkout.antt =====
-- modules/checkout-sessions: checkout-sessions.service.ts and its entity. The calls of other services
-- (PaymentsService.create, the webhook to the merchant) are given by what they return or throw;
-- `getBrandingWithDefaults`, which MerchantsService does not have, throws. The table is looked up by the unique column `publicId`.
use facilpay_api.Common.{
  ℕ, ◌+◌, ◌*◌, Bool, true, false, not, ◌&&◌, ◌||◌, Option, none, some, List, [], ◌∷◌, ◌++◌, map,
  ltb, ◌==◌, length, if◌then◌else◌, first, or_else, is_empty, ⊤,
}
use facilpay_api.Common.Action.{
  Result, ok, err, not_found, bad_request, gone, failure, ◌>>=◌, ◌>>◌, pure, or_throw, throw_if,
  gets,
}
use facilpay_api.Common.Store.{Store, write, emit}
use facilpay_api.Repository.{Repository}
pub mod Changes
pub mod Once

pub data CheckoutSessionStatus : Type 0 where
  open_ complete expired : CheckoutSessionStatus

pub record LineItem : Type 0 where
  pub name : ℕ
  pub description : Option ℕ
  pub quantity : ℕ
  -- in the smallest unit of the currency
  pub unit_amount : ℕ

pub record CheckoutSession : Type 0 where
  pub id : ℕ
  pub public_id : ℕ
  pub merchant_id : ℕ
  pub line_items : List LineItem
  pub currency : ℕ
  pub total : ℕ
  pub customer_id : Option ℕ
  pub customer_email : Option ℕ
  pub success_url : ℕ
  pub cancel_url : ℕ
  pub expires_at : ℕ
  pub status : CheckoutSessionStatus
  pub payment_id : Option ℕ

pub record CreateCheckoutSessionDto : Type 0 where
  pub line_items : List LineItem
  pub currency : ℕ
  pub customer_id : Option ℕ
  pub customer_email : Option ℕ
  pub success_url : ℕ
  pub cancel_url : ℕ
  pub expires_in_minutes : Option ℕ

pub data Sent : Type 0 where
  -- `paymentsService.create`: the session and the amount, in the smallest unit
  payment_requested : ℕ → ℕ → Sent
  session_expired session_completed : ℕ → Sent

-- What a call is given from outside: the time and the answers of other services.
pub record Outside : Type 0 where
  pub now : ℕ
  pub payment : Result ℕ
  pub dispatched : Result ⊤

abbrev pub is_open : CheckoutSession → Bool
is_open session = elim session.status [ CheckoutSessionStatus.open_ ↦ true | _ ↦ false ]

-- `where status = OPEN and expiresAt < now`
abbrev pub is_stale : ℕ → CheckoutSession → Bool
is_stale now session = is_open session && ltb session.expires_at now

abbrev pub expired_session : CheckoutSession → CheckoutSession
expired_session session = record session { status = CheckoutSessionStatus.expired }

abbrev pub completed_session : ℕ → CheckoutSession → CheckoutSession
completed_session payment_id session = record session {
  payment_id = some payment_id;
  status = CheckoutSessionStatus.complete;
}

pub calculate_total : List LineItem → ℕ
calculate_total [] = 0
calculate_total (item ∷ items) = item.quantity * item.unit_amount + calculate_total items

pub new_session : ℕ → ℕ → ℕ → ℕ → CreateCheckoutSessionDto → CheckoutSession
new_session new public_id now merchant_id dto = record {
  id = new;
  public_id = public_id;
  merchant_id = merchant_id;
  line_items = dto.line_items;
  currency = dto.currency;
  total = calculate_total dto.line_items;
  customer_id = dto.customer_id;
  customer_email = dto.customer_email;
  success_url = dto.success_url;
  cancel_url = dto.cancel_url;
  expires_at = now + or_else dto.expires_in_minutes 30 * 60 * 1000;
  status = CheckoutSessionStatus.open_;
  payment_id = none;
}

module _ (repo : Repository CheckoutSession (λ r. r.public_id)) where
  abbrev pub State : Type 0
  State = Store repo.Table Sent

  unfoldable pub create :
      ℕ → ℕ → ℕ → ℕ → CreateCheckoutSessionDto → State → Result CheckoutSession × State
  create new public_id now merchant_id dto = do
    throw_if (is_empty dto.line_items) bad_request
    write (repo.save (new_session new public_id now merchant_id dto))
    pure (new_session new public_id now merchant_id dto)

  abbrev pub owned : ℕ → ℕ → CheckoutSession → Bool
  owned id merchant_id r = (r.id == id) && (r.merchant_id == merchant_id)

  pub find_by_id : ℕ → ℕ → State → Result CheckoutSession × State
  find_by_id id merchant_id s =
      or_throw (first (repo.find (owned id merchant_id) s.tables)) not_found s

  unfoldable pub find_by_public_id : ℕ → State → Result CheckoutSession × State
  find_by_public_id public_id s = or_throw (repo.find_one public_id s.tables) not_found s

  abbrev pub is_expired : ℕ → CheckoutSession → Bool
  is_expired now session = elim session.status [
    | CheckoutSessionStatus.expired ↦ true
    | CheckoutSessionStatus.open_ ↦ ltb session.expires_at now
    | CheckoutSessionStatus.complete ↦ false
  ]

  -- `this.merchantsService.getBrandingWithDefaults` is undefined: the call of it is a TypeError.
  abbrev pub get_branding_with_defaults : State → Result ⊤ × State
  get_branding_with_defaults s = (err failure, s)

  unfoldable pub get_public_session : Outside → ℕ → State → Result CheckoutSession × State
  get_public_session outside public_id = do
    session ← find_by_public_id public_id
    throw_if (is_expired outside.now session) gone
    get_branding_with_defaults
    pure session

  pub expire_session : Outside → CheckoutSession → State → Result CheckoutSession × State
  expire_session outside session = do
    throw_if (not (is_open session)) bad_request
    write (repo.save (expired_session session))
    emit (session_expired session.id ∷ [])
    λ s. (outside.dispatched, s)
    pure (expired_session session)

  pub expire : Outside → ℕ → ℕ → State → Result CheckoutSession × State
  expire outside id merchant_id = do
    session ← find_by_id id merchant_id
    expire_session outside session

  -- The payment, and the session that is saved after it.
  unfoldable pub pay_session : Outside → CheckoutSession → State → Result CheckoutSession × State
  pay_session outside session = do
    throw_if (not (is_open session)) bad_request
    emit (payment_requested session.public_id session.total ∷ [])
    payment_id ← λ s. (outside.payment, s)
    write (repo.save (completed_session payment_id session))
    emit (session_completed session.id ∷ [])
    λ s. (outside.dispatched, s)
    pure (completed_session payment_id session)

  unfoldable pub complete_session : Outside → ℕ → State → Result CheckoutSession × State
  complete_session outside public_id = do
    session ← get_public_session outside public_id
    pay_session outside session

  pub expire_stale_sessions : ℕ → State → Result ℕ × State
  expire_stale_sessions now = do
    stale ← gets (λ s. repo.find (is_stale now) s.tables)
    write (repo.update (is_stale now) expired_session)
    let affected = length stale
    emit (if ltb 0 affected then map (λ session. session_expired session.id) stale else [])
    pure affected
