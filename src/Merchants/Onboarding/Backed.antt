-- ===== src/Merchants/Onboarding/Backed.antt =====
-- What the merchant's calls save: a row that is approved only if it was, with the same sensitive fields.
use facilpay_api.Common.{
  ℕ, ◌≡◌, refl, ◌∙◌, ap, ◌⊎◌, inl, inr, Bool, true, false, Option, some, List, [], ◌∷◌, arith,
  Option-cases, List-cases,
}
use facilpay_api.Repository.{Repository}
use facilpay_api.Merchants.Onboarding.{
  is_approved, MerchantOnboarding, FieldChange, BusinessInfoDto, DocumentsDto, State, created,
  with_info, with_documents, row_of, submit_business_info, submit_documents, get_status,
}
use facilpay_api.Merchants.Onboarding.Profile.{
  UpdateMerchantProfileDto, differs, is_sensitive, changes_of, flagged, with_profile, get_profile,
  update_profile, log_changes,
}

-- The row was approved before, with the same legal name, country, contact and documents.
pub record IsAsApproved (row old : MerchantOnboarding) : Type 0 where
  pub was_approved : is_approved old.status ≡ true
  pub legal_name : row.legal_name ≡ old.legal_name
  pub country : row.country ≡ old.country
  pub business_email : row.business_email ≡ old.business_email
  pub business_address : row.business_address ≡ old.business_address
  pub id_document_url : row.id_document_url ≡ old.id_document_url
  pub business_certificate_url : row.business_certificate_url ≡ old.business_certificate_url

module _ (repo : Repository MerchantOnboarding (λ r. r.merchant_id)) where
  -- An approved row is as approved in `s`.
  abbrev pub IsBacked : State repo → MerchantOnboarding → Type 0
  IsBacked s row =
      is_approved row.status ≡ true
      → (old : MerchantOnboarding) × (repo.find_one row.merchant_id s.tables.onboardings ≡ some old)
        × IsAsApproved row old

  abbrev pub Saves : State repo → State repo → Type 0
  Saves s t =
      (t.tables.onboardings ≡ s.tables.onboardings)
      ⊎ ((row : MerchantOnboarding) × IsBacked s row
          × (t.tables.onboardings ≡ repo.save row s.tables.onboardings))

  with_info-IsBacked :
      (dto : BusinessInfoDto) (row : MerchantOnboarding) (s : State repo)
      → IsBacked s (with_info dto row)
  unfolding with_info
  with_info-IsBacked dto row s h = ground (arith, h)

  with_documents-IsBacked :
      (dto : DocumentsDto) (row : MerchantOnboarding) (s : State repo)
      → IsBacked s (with_documents dto row)
  unfolding with_documents
  with_documents-IsBacked dto row s h = ground (arith, h)

  created-IsBacked : (new merchant_id : ℕ) (s : State repo) → IsBacked s (created new merchant_id)
  created-IsBacked new merchant_id s h = ground (arith, h)

  -- A sensitive change leaves no approval; another one leaves the sensitive fields.
  with_profile-IsBacked :
      (dto : UpdateMerchantProfileDto) (row : MerchantOnboarding) (s : State repo)
      → (is_approved row.status ≡ true
          → repo.find_one row.merchant_id s.tables.onboardings ≡ some row)
      → IsBacked s (with_profile dto row)
  unfolding with_profile flagged is_sensitive
  with_profile-IsBacked dto row s found h =
      let was : is_approved row.status ≡ true = ground (arith, h) in
      let plain : (differs dto.legal_name row.legal_name ≡ false)
          × (differs dto.country row.country ≡ false) =
        ground (arith, h) in
      (
        row,
        rw (plain.0, plain.1) (found was),
        record {
          was_approved = was;
          legal_name = rw (plain.0, plain.1) refl;
          country = rw (plain.0, plain.1) refl;
          business_email = rw (plain.0, plain.1) refl;
          business_address = rw (plain.0, plain.1) refl;
          id_document_url = rw (plain.0, plain.1) refl;
          business_certificate_url = rw (plain.0, plain.1) refl;
        },
      )

  -- The row that a call works on is the one that is stored, when it is approved.
  row_of-found :
      (new merchant_id : ℕ) (s : State repo)
      → let row = row_of repo new merchant_id s in
        is_approved row.status ≡ true
        → repo.find_one row.merchant_id s.tables.onboardings ≡ some row
  row_of-found new merchant_id s h =
      elim (Option-cases (repo.find_one merchant_id s.tables.onboardings)) [
        | inl e ↦ ground (arith, e, h)
        | inr (row, e) ↦
            let key = repo.key-find_one merchant_id s.tables.onboardings row e in
            rw (e) (ap (λ k. repo.find_one k s.tables.onboardings) key ∙ e)
      ]

  effect-Saves :
      (row : MerchantOnboarding) (s t : State repo)
      → IsBacked s row
      → (t.tables.onboardings ≡ s.tables.onboardings)
        ⊎ (t.tables.onboardings ≡ repo.save row s.tables.onboardings)
      → Saves s t
  effect-Saves row s t backed (inl same) = inl same
  effect-Saves row s t backed (inr saved) = inr (row, backed, saved)

  pub submit_business_info-Saves :
      (new merchant_id : ℕ) (dto : BusinessInfoDto) (s : State repo)
      → Saves s (submit_business_info repo new merchant_id dto s).1
  unfolding submit_business_info
  submit_business_info-Saves new merchant_id dto s =
      let row = row_of repo new merchant_id s in
      effect-Saves (with_info dto row) s (submit_business_info repo new merchant_id dto s).1
        (with_info-IsBacked dto row s) (ground arith)

  pub submit_documents-Saves :
      (new merchant_id : ℕ) (dto : DocumentsDto) (s : State repo)
      → Saves s (submit_documents repo new merchant_id dto s).1
  unfolding submit_documents
  submit_documents-Saves new merchant_id dto s =
      let row = row_of repo new merchant_id s in
      effect-Saves (with_documents dto row) s (submit_documents repo new merchant_id dto s).1
        (with_documents-IsBacked dto row s) (ground arith)

  pub get_status-Saves :
      (new merchant_id : ℕ) (s : State repo) → Saves s (get_status repo new merchant_id s).1
  unfolding get_status
  get_status-Saves new merchant_id s =
      effect-Saves (created new merchant_id) s (get_status repo new merchant_id s).1
        (created-IsBacked new merchant_id s) (ground arith)

  pub get_profile-state :
      (new merchant_id : ℕ) (s : State repo)
      → (get_profile repo new merchant_id s).1 ≡ (get_status repo new merchant_id s).1
  unfolding get_profile
  get_profile-state new merchant_id s = ground arith

  log_changes-onboardings :
      (merchant_id : ℕ) (actor : Option ℕ) (sensitive : Bool) (changes : List FieldChange)
      (s : State repo)
      → (log_changes repo merchant_id actor sensitive changes s).1.tables.onboardings
        ≡ s.tables.onboardings
  unfolding log_changes
  log_changes-onboardings merchant_id actor sensitive [] s = refl
  log_changes-onboardings merchant_id actor sensitive (change ∷ changes) s = ground arith

  pub update_profile-Saves :
      (new merchant_id : ℕ) (dto : UpdateMerchantProfileDto) (actor : Option ℕ) (s : State repo)
      → Saves s (update_profile repo new merchant_id dto actor s).1
  unfolding update_profile
  update_profile-Saves new merchant_id dto actor s =
      let row = row_of repo new merchant_id s in
      let updated = with_profile dto row in
      let saved : List Bool → State repo = λ rest. record s {
        tables = record s.tables { onboardings = repo.save updated s.tables.onboardings };
        faults = rest;
      } in
      let logged : (rest : List Bool) → _ = λ rest.
        log_changes-onboardings merchant_id actor (is_sensitive dto row) (changes_of dto row)
          (saved rest) in
      effect-Saves updated s (update_profile repo new merchant_id dto actor s).1
        (with_profile-IsBacked dto row s (row_of-found new merchant_id s))
        (elim (List-cases s.faults) [
          | inl e ↦ ground (arith, e, logged [])
          | inr (x, rest, e) ↦ ground (arith, e, logged rest)
        ])
