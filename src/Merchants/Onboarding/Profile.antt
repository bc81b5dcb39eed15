-- ===== src/Merchants/Onboarding/Profile.antt =====
-- merchants.service.ts: getProfile and updateProfile, with merchant-profile.dto.ts and
-- audit-logs.service.ts: record.
use facilpay_api.Common.{
  ℕ, Bool, true, false, not, ◌||◌, Option, none, some, List, [], ◌∷◌, ◌++◌, if◌then◌else◌, or_else,
  some_eq, ⊤,
}
use facilpay_api.Common.Action.{Result, ◌>>=◌, ◌>>◌, pure}
use facilpay_api.Common.Store.{write}
use facilpay_api.Repository.{Repository}
use facilpay_api.Merchants.Onboarding.{
  OnboardingStatus, is_approved, MerchantOnboarding, Field, FieldChange, AuditLog, State, save_row,
  row_of, get_status,
}

pub record UpdateMerchantProfileDto : Type 0 where
  pub business_name : Option ℕ
  pub legal_name : Option ℕ
  pub website : Option ℕ
  pub support_email : Option ℕ
  pub support_phone : Option ℕ
  pub country : Option ℕ
  pub timezone : Option ℕ
  pub default_currency : Option ℕ

pub record MerchantProfileResponseDto : Type 0 where
  pub merchant_id : ℕ
  pub business_name : Option ℕ
  pub legal_name : Option ℕ
  pub website : Option ℕ
  pub support_email : Option ℕ
  pub support_phone : Option ℕ
  pub country : Option ℕ
  pub timezone : Option ℕ
  pub default_currency : Option ℕ
  pub status : OnboardingStatus
  pub requires_re_review : Bool

pub profile_of : MerchantOnboarding → MerchantProfileResponseDto
profile_of row = record {
  merchant_id = row.merchant_id;
  business_name = row.business_name;
  legal_name = row.legal_name;
  website = row.website;
  support_email = row.support_email;
  support_phone = row.support_phone;
  country = row.country;
  timezone = row.timezone;
  default_currency = row.default_currency;
  status = row.status;
  requires_re_review = row.requires_re_review;
}

-- A value is given, and it is not the present one.
abbrev pub differs : Option ℕ → Option ℕ → Bool
differs none present = false
differs (some new) present = not (some_eq present new)

abbrev pub set : Option ℕ → Option ℕ → Option ℕ
set given present = if differs given present then given else present

-- The number of the empty text.
abbrev pub empty_text : ℕ
empty_text = 0

abbrev pub change_of : Field → Option ℕ → Option ℕ → List FieldChange
change_of field none present = []
change_of field (some new) present =
    if some_eq present new
    then []
    else record { field = field; old = or_else present empty_text; new = new } ∷ []

unfoldable pub changes_of : UpdateMerchantProfileDto → MerchantOnboarding → List FieldChange
changes_of dto row =
    change_of Field.business_name dto.business_name row.business_name
    ++ change_of Field.legal_name dto.legal_name row.legal_name
    ++ change_of Field.website dto.website row.website
    ++ change_of Field.support_email dto.support_email row.support_email
    ++ change_of Field.support_phone dto.support_phone row.support_phone
    ++ change_of Field.country dto.country row.country
    ++ change_of Field.timezone dto.timezone row.timezone
    ++ change_of Field.default_currency dto.default_currency row.default_currency

-- The legal name and the country are the sensitive fields.
unfoldable pub is_sensitive : UpdateMerchantProfileDto → MerchantOnboarding → Bool
is_sensitive dto row = differs dto.legal_name row.legal_name || differs dto.country row.country

unfoldable pub flagged : Bool → MerchantOnboarding → MerchantOnboarding
flagged sensitive row =
    if sensitive
    then record row {
      requires_re_review = true;
      status = if is_approved row.status then OnboardingStatus.under_review else row.status;
    }
    else row

unfoldable pub with_profile : UpdateMerchantProfileDto → MerchantOnboarding → MerchantOnboarding
with_profile dto row = flagged (is_sensitive dto row) (record row {
  business_name = set dto.business_name row.business_name;
  legal_name = set dto.legal_name row.legal_name;
  website = set dto.website row.website;
  support_email = set dto.support_email row.support_email;
  support_phone = set dto.support_phone row.support_phone;
  country = set dto.country row.country;
  timezone = set dto.timezone row.timezone;
  default_currency = set dto.default_currency row.default_currency;
})

module _ (repo : Repository MerchantOnboarding (λ r. r.merchant_id)) where
  unfoldable pub get_profile : ℕ → ℕ → State repo → Result MerchantProfileResponseDto × State repo
  get_profile new merchant_id = do row ← get_status repo new merchant_id; pure (profile_of row)

  abbrev pub save_log : AuditLog → State repo → Result ⊤ × State repo
  save_log log = write (λ t. record t { audit_logs = t.audit_logs ++ log ∷ [] })

  unfoldable pub log_changes :
      ℕ → Option ℕ → Bool → List FieldChange → State repo → Result ⊤ × State repo
  log_changes merchant_id actor_id sensitive [] = pure tt
  log_changes merchant_id actor_id sensitive (change ∷ changes) = save_log (record {
    actor_id = actor_id;
    resource_id = merchant_id;
    changes = change ∷ changes;
    requires_re_review = sensitive;
  })

  unfoldable pub update_profile :
      ℕ
      → ℕ
      → UpdateMerchantProfileDto
      → Option ℕ
      → State repo
      → Result MerchantProfileResponseDto × State repo
  update_profile new merchant_id dto actor_id s =
      let row = row_of repo new merchant_id s in
      (do
        save_row repo (with_profile dto row)
        log_changes merchant_id actor_id (is_sensitive dto row) (changes_of dto row)
        pure (profile_of (with_profile dto row)))
        s
