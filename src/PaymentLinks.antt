-- ===== src/PaymentLinks.antt =====
-- modules/payment-links/payment-links.service.ts: finding, redeeming, deactivating and updating a link.
-- `incrementCompletions` is in Payments/Lifecycle/Links. The entity has no columns for the required and
-- the custom fields, so that a link that was read from the table has none.
use facilpay_api.Common.{
  ℕ, ◌+◌, Bool, true, false, not, ◌&&◌, ◌||◌, Option, none, some, List, [], ◌∷◌, ◌++◌, ltb, leb,
  ◌==◌, if◌then◌else◌, first, or_else, or_other, is_some, is_empty, any, map, includes, some_eq, ⊤,
}
use facilpay_api.Common.Action.{
  Result, ok, err, not_found, gone, forbidden, bad_request, ◌>>=◌, ◌>>◌, pure, or_throw, throw_if,
  gets,
}
use facilpay_api.Model.Entities.{PaymentLink}
use facilpay_api.Model.State.{Database, Tables, State, write}
pub mod Laws
pub mod Creation
pub mod Analytics

pub data FieldType : Type 0 where
  text number select : FieldType

pub record CustomField : Type 0 where
  pub key : ℕ
  pub label : ℕ
  pub kind : FieldType
  pub options : Option (List ℕ)
  pub required : Bool

pub record PaymentLinkRequiredFields : Type 0 where
  pub name : Bool
  pub email : Bool
  pub phone : Bool

pub record CustomFieldValueDto : Type 0 where
  pub key : ℕ
  pub value : ℕ

pub record RedeemPaymentLinkDto : Type 0 where
  pub payer_amount : Option ℕ
  pub name : Option ℕ
  pub email : Option ℕ
  pub phone : Option ℕ
  pub custom_fields : List CustomFieldValueDto

-- none: the field is left alone
pub record UpdatePaymentLinkDto : Type 0 where
  pub is_active : Option Bool
  pub amount : Option ℕ
  pub currency : Option ℕ
  pub description : Option (Option ℕ)
  pub expires_at : Option (Option ℕ)

pub data FieldError : Type 0 where
  name_required email_required phone_required : FieldError
  field_required unknown_field not_a_number not_an_option : ℕ → FieldError

abbrev pub when : Bool → FieldError → List FieldError
when c e = if c then e ∷ [] else []

pub find_field : ℕ → List CustomField → Option CustomField
find_field key [] = none
find_field key (field ∷ fields) = if field.key == key then some field else find_field key fields

-- `is_number` tells of a text whether `Number` makes a number of it.
pub value_errors : (ℕ → Bool) → CustomFieldValueDto → Option CustomField → List FieldError
value_errors is_number provided none = unknown_field provided.key ∷ []
value_errors is_number provided (some field) = elim field.kind [
  | FieldType.text ↦ []
  | FieldType.number ↦ when (not (is_number provided.value)) (not_a_number provided.key)
  | FieldType.select ↦ elim field.options [
    | none ↦ []
    | some options ↦ when (not (includes provided.value options)) (not_an_option provided.key)
  ]
]

abbrev pub provides : ℕ → List CustomFieldValueDto → Bool
provides key = any (λ provided. provided.key == key)

pub missing_errors : List CustomFieldValueDto → List CustomField → List FieldError
missing_errors provided [] = []
missing_errors provided (field ∷ fields) =
    when (field.required && not (provides field.key provided)) (field_required field.key)
    ++ missing_errors provided fields

pub provided_errors : (ℕ → Bool) → List CustomField → List CustomFieldValueDto → List FieldError
provided_errors is_number fields [] = []
provided_errors is_number fields (provided ∷ rest) =
    value_errors is_number provided (find_field provided.key fields)
    ++ provided_errors is_number fields rest

abbrev pub required_errors :
    Option PaymentLinkRequiredFields → RedeemPaymentLinkDto → List FieldError
required_errors none dto = []
required_errors (some required) dto =
    when (required.name && not (is_some dto.name)) name_required
    ++ when (required.email && not (is_some dto.email)) email_required
    ++ when (required.phone && not (is_some dto.phone)) phone_required

-- The fields of the link: none where it has none.
pub validate_payer_fields :
    (ℕ → Bool)
    → Option PaymentLinkRequiredFields
    → List CustomField
    → RedeemPaymentLinkDto
    → List FieldError
validate_payer_fields is_number required fields dto =
    required_errors required dto
    ++ (if is_empty fields
        then []
        else missing_errors dto.custom_fields fields
          ++ provided_errors is_number fields dto.custom_fields)

abbrev pub is_past : ℕ → Option ℕ → Bool
is_past now none = false
is_past now (some at) = ltb at now

-- A link of a flexible amount wants an amount, and not less than its minimum.
abbrev pub is_amount_refused : PaymentLink → Option ℕ → Bool
is_amount_refused link none = link.flexible_amount
is_amount_refused link (some amount) =
    link.flexible_amount && elim link.min_amount [ none ↦ false | some least ↦ ltb amount least ]

abbrev pub viewed : PaymentLink → PaymentLink
viewed link = record link { views = link.views + 1 }

unfoldable pub edited : UpdatePaymentLinkDto → PaymentLink → PaymentLink
edited dto link = record link {
  is_active = or_else dto.is_active link.is_active;
  amount = or_other dto.amount link.amount;
  currency = or_else dto.currency link.currency;
  description = or_else dto.description link.description;
  expires_at = or_else dto.expires_at link.expires_at;
}

-- Making a link active again after its expiry
abbrev pub is_late : ℕ → UpdatePaymentLinkDto → PaymentLink → Bool
is_late now dto link =
    (or_else dto.is_active false && not link.is_active)
    && elim link.expires_at [ none ↦ false | some at ↦ leb at now ]

module _ {db : Database} where
  -- By the token, or else by the slug; both are unique columns.
  unfoldable pub find_link : ℕ → Tables db → Option PaymentLink
  find_link token_or_slug t =
      or_other (first (db.links.find (λ l. l.token == token_or_slug) t.links))
        (first (db.links.find (λ l. some_eq l.slug token_or_slug) t.links))

  pub find_by_token_or_slug : ℕ → ℕ → State db → Result PaymentLink × State db
  find_by_token_or_slug now token_or_slug = do
    t ← gets (λ s. s.tables)
    link ← or_throw (find_link token_or_slug t) not_found
    throw_if (not link.is_active) gone
    throw_if (is_past now link.expires_at) gone
    write (λ t. record t { links = db.links.update (λ l. l.id == link.id) viewed t.links })
    pure (viewed link)

  pub redeem_link :
      (ℕ → Bool) → ℕ → ℕ → RedeemPaymentLinkDto → State db → Result PaymentLink × State db
  redeem_link is_number now token_or_slug dto = do
    link ← find_by_token_or_slug now token_or_slug
    throw_if (is_amount_refused link dto.payer_amount) bad_request
    throw_if (not (is_empty (validate_payer_fields is_number none [] dto))) bad_request
    pure link

  pub deactivate : ℕ → ℕ → State db → Result ⊤ × State db
  deactivate id merchant_id = do
    t ← gets (λ s. s.tables)
    link ← or_throw (db.links.find_one id t.links) not_found
    throw_if (not (link.merchant_id == merchant_id)) forbidden
    write (λ t. record t { links = db.links.save (record link { is_active = false }) t.links })

  unfoldable pub update :
      ℕ → ℕ → ℕ → UpdatePaymentLinkDto → State db → Result PaymentLink × State db
  update now id merchant_id dto = do
    t ← gets (λ s. s.tables)
    link ← or_throw (db.links.find_one id t.links) not_found
    throw_if (not (link.merchant_id == merchant_id)) forbidden
    throw_if (is_late now dto link) gone
    write (λ t. record t { links = db.links.save (edited dto link) t.links })
    pure (edited dto link)
