-- ===== src/Merchants/Onboarding.antt =====
-- modules/onboarding: merchant-onboarding.entity.ts, onboarding.service.ts and its DTOs. The table is
-- looked up by the unique column `merchantId`. Texts are numbers.
pub mod Profile
pub mod Backed
pub mod Approval
use facilpay_api.Common.{
  ℕ, Bool, true, false, Option, none, some, List, [], ◌∷◌, if◌then◌else◌, or_else, or_other, ⊤,
}
use facilpay_api.Common.Action.{Result, not_found, ◌>>=◌, ◌>>◌, pure, or_throw}
use facilpay_api.Common.Store.{Store, write, emit}
use facilpay_api.Repository.{Repository}

pub data OnboardingStatus : Type 0 where
  pending under_review approved rejected : OnboardingStatus

abbrev pub is_approved : OnboardingStatus → Bool
is_approved OnboardingStatus.approved = true
is_approved _ = false

abbrev pub is_rejected : OnboardingStatus → Bool
is_rejected OnboardingStatus.rejected = true
is_rejected _ = false

pub record MerchantOnboarding : Type 0 where
  pub id : ℕ
  pub merchant_id : ℕ
  pub business_name : Option ℕ
  pub legal_name : Option ℕ
  pub business_email : Option ℕ
  pub business_address : Option ℕ
  pub website : Option ℕ
  pub support_email : Option ℕ
  pub support_phone : Option ℕ
  pub country : Option ℕ
  pub timezone : Option ℕ
  pub default_currency : Option ℕ
  pub id_document_url : Option ℕ
  pub business_certificate_url : Option ℕ
  pub status : OnboardingStatus
  pub rejection_reason : Option ℕ
  pub requires_re_review : Bool

pub record BusinessInfoDto : Type 0 where
  pub business_name : ℕ
  pub business_email : ℕ
  pub business_address : Option ℕ

pub record DocumentsDto : Type 0 where
  pub id_document_url : ℕ
  pub business_certificate_url : ℕ

pub record ReviewOnboardingDto : Type 0 where
  pub status : OnboardingStatus
  pub rejection_reason : Option ℕ

-- The fields that a profile has, in the order in which an update looks at them.
pub data Field : Type 0 where
  business_name legal_name website support_email support_phone country timezone : Field
  default_currency : Field

pub record FieldChange : Type 0 where
  pub field : Field
  pub old : ℕ
  pub new : ℕ

-- The row of 'merchant_profile_updated' in the audit log.
pub record AuditLog : Type 0 where
  pub actor_id : Option ℕ
  pub resource_id : ℕ
  pub changes : List FieldChange
  pub requires_re_review : Bool

-- `sendMerchantPaymentReceived`: the address, the row and its status.
pub data Sent : Type 0 where
  reviewed_mail : ℕ → ℕ → OnboardingStatus → Sent

-- `repo.create({ merchantId })`, with the identifier that the database gives it.
abbrev pub created : ℕ → ℕ → MerchantOnboarding
created new merchant_id = record {
  id = new;
  merchant_id = merchant_id;
  business_name = none;
  legal_name = none;
  business_email = none;
  business_address = none;
  website = none;
  support_email = none;
  support_phone = none;
  country = none;
  timezone = none;
  default_currency = none;
  id_document_url = none;
  business_certificate_url = none;
  status = OnboardingStatus.pending;
  rejection_reason = none;
  requires_re_review = false;
}

unfoldable pub with_info : BusinessInfoDto → MerchantOnboarding → MerchantOnboarding
with_info dto row = record row {
  business_name = some dto.business_name;
  business_email = some dto.business_email;
  business_address = or_other dto.business_address row.business_address;
  status = OnboardingStatus.pending;
}

unfoldable pub with_documents : DocumentsDto → MerchantOnboarding → MerchantOnboarding
with_documents dto row = record row {
  id_document_url = some dto.id_document_url;
  business_certificate_url = some dto.business_certificate_url;
  status = OnboardingStatus.pending;
}

-- The number of the text 'Rejected'.
abbrev pub rejected_text : ℕ
rejected_text = 0

unfoldable pub reviewed : ReviewOnboardingDto → MerchantOnboarding → MerchantOnboarding
reviewed dto row = record row {
  status = dto.status;
  rejection_reason =
      if is_rejected dto.status then some (or_else dto.rejection_reason rejected_text) else none;
}

module _ (repo : Repository MerchantOnboarding (λ r. r.merchant_id)) where
  pub record Tables : Type 0 where
    pub onboardings : repo.Table
    pub audit_logs : List AuditLog

  abbrev pub State : Type 0
  State = Store Tables Sent

  abbrev pub save_row : MerchantOnboarding → State → Result ⊤ × State
  save_row row = write (λ t. record t { onboardings = repo.save row t.onboardings })

  -- The row of the merchant, or a new one.
  abbrev pub row_of : ℕ → ℕ → State → MerchantOnboarding
  row_of new merchant_id s =
      or_else (repo.find_one merchant_id s.tables.onboardings) (created new merchant_id)

  unfoldable pub submit_business_info :
      ℕ → ℕ → BusinessInfoDto → State → Result MerchantOnboarding × State
  submit_business_info new merchant_id dto s =
      let row = with_info dto (row_of new merchant_id s) in (save_row row >> pure row) s

  unfoldable pub submit_documents : ℕ → ℕ → DocumentsDto → State → Result MerchantOnboarding × State
  submit_documents new merchant_id dto s =
      let row = with_documents dto (row_of new merchant_id s) in (save_row row >> pure row) s

  unfoldable pub get_status : ℕ → ℕ → State → Result MerchantOnboarding × State
  get_status new merchant_id s = elim (repo.find_one merchant_id s.tables.onboardings) [
    | some row ↦ pure row s
    | none ↦ (save_row (created new merchant_id) >> pure (created new merchant_id)) s
  ]

  -- What the mail throws is caught.
  abbrev pub mail : MerchantOnboarding → List Sent
  mail row = elim row.business_email [
    | none ↦ []
    | some address ↦ reviewed_mail address row.id row.status ∷ []
  ]

  unfoldable pub review : ℕ → ReviewOnboardingDto → State → Result MerchantOnboarding × State
  review merchant_id dto = do
    row ← λ s. or_throw (repo.find_one merchant_id s.tables.onboardings) not_found s
    save_row (reviewed dto row)
    emit (mail (reviewed dto row))
    pure (reviewed dto row)
