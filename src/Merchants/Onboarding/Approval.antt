-- ===== src/Merchants/Onboarding/Approval.antt =====
-- An approval stands for the names and documents that were reviewed.
use facilpay_api.Common.{
  ℕ, ◌≡◌, refl, sym, ap, ◌∙◌, inl, inr, true, Option, some, ◌==◌, arith, Bool-cases, ==_iff,
}
use facilpay_api.Repository.{Repository}
use facilpay_api.Merchants.Onboarding.{
  is_approved, MerchantOnboarding, BusinessInfoDto, DocumentsDto, State, submit_business_info,
  submit_documents, get_status,
}
use facilpay_api.Merchants.Onboarding.Profile.{
  UpdateMerchantProfileDto, get_profile, update_profile,
}
use mathlib.Core.Path.{subst}
use facilpay_api.Merchants.Onboarding.Backed.{
  IsAsApproved, Saves, submit_business_info-Saves, submit_documents-Saves, get_status-Saves,
  get_profile-state, update_profile-Saves,
}

module _ (repo : Repository MerchantOnboarding (λ r. r.merchant_id)) where
  -- What the merchant's own calls reach: none of them is a review.
  pub data Reaches (s : State repo) : State repo → Type 0 where
    here : Reaches s s
    informs :
        (new merchant_id : ℕ) (dto : BusinessInfoDto) {t : State repo}
        → Reaches s t
        → Reaches s (submit_business_info repo new merchant_id dto t).1
    documents :
        (new merchant_id : ℕ) (dto : DocumentsDto) {t : State repo}
        → Reaches s t
        → Reaches s (submit_documents repo new merchant_id dto t).1
    asks :
        (new merchant_id : ℕ) {t : State repo}
        → Reaches s t
        → Reaches s (get_status repo new merchant_id t).1
    shows :
        (new merchant_id : ℕ) {t : State repo}
        → Reaches s t
        → Reaches s (get_profile repo new merchant_id t).1
    updates :
        (new merchant_id : ℕ) (dto : UpdateMerchantProfileDto) (actor : Option ℕ) {t : State repo}
        → Reaches s t
        → Reaches s (update_profile repo new merchant_id dto actor t).1

  -- Each approved row was approved in `s` already, with the same sensitive fields.
  abbrev AllApproved : State repo → State repo → Type 0
  AllApproved s t =
      (k : ℕ) (row : MerchantOnboarding)
      → repo.find_one k t.tables.onboardings ≡ some row
      → is_approved row.status ≡ true
      → (old : MerchantOnboarding) × (repo.find_one k s.tables.onboardings ≡ some old)
        × IsAsApproved row old

  IsAsApproved-trans :
      (a b c : MerchantOnboarding) → IsAsApproved a b → IsAsApproved b c → IsAsApproved a c
  IsAsApproved-trans a b c h g = record {
    was_approved = g.was_approved;
    legal_name = h.legal_name ∙ g.legal_name;
    country = h.country ∙ g.country;
    business_email = h.business_email ∙ g.business_email;
    business_address = h.business_address ∙ g.business_address;
    id_document_url = h.id_document_url ∙ g.id_document_url;
    business_certificate_url = h.business_certificate_url ∙ g.business_certificate_url;
  }

  Saves-AllApproved : (s t u : State repo) → Saves repo t u → AllApproved s t → AllApproved s u
  Saves-AllApproved s t u (inl same) all k row found approved =
      all k row (rw (← same) found) approved
  Saves-AllApproved s t u (inr (x, backed, saved)) all k row found approved =
      elim (Bool-cases (x.merchant_id == k)) [
        | inr other ↦
            all k row
              (ground (arith, other, saved, found, repo.find_one-save x k t.tables.onboardings))
              approved
        | inl own ↦
            let key = (==_iff x.merchant_id k).0 own in
            let is_row : x ≡ row =
              ground (arith, own, saved, found, repo.find_one-save x k t.tables.onboardings) in
            let (old, before, as_approved) = backed (rw (is_row) approved) in
            let (first, at_first, as_first) =
              all k old (sym (ap (λ i. repo.find_one i t.tables.onboardings) key) ∙ before)
                as_approved.was_approved in
            (
              first,
              at_first,
              IsAsApproved-trans row old first (subst (λ x. IsAsApproved x old) is_row as_approved)
                  as_first,
            )
      ]

  -- Whatever the merchants call, and whatever writes fail: without a review, a row is approved only if it
  -- was before, with the same legal name, country, email, address and documents.
  pub Reaches-IsAsApproved :
      {s t : State repo}
      → Reaches s t
      → (k : ℕ) (row : MerchantOnboarding) → repo.find_one k t.tables.onboardings ≡ some row
      → is_approved row.status ≡ true
      → (old : MerchantOnboarding) × (repo.find_one k s.tables.onboardings ≡ some old)
        × IsAsApproved row old
  Reaches-IsAsApproved {s = s} here k row found approved = (
    row,
    found,
    record {
      was_approved = approved;
      legal_name = refl;
      country = refl;
      business_email = refl;
      business_address = refl;
      id_document_url = refl;
      business_certificate_url = refl;
    },
  )
  Reaches-IsAsApproved {s = s} (informs new m dto {t = t} r) k row found approved =
      Saves-AllApproved s t (submit_business_info repo new m dto t).1
        (submit_business_info-Saves repo new m dto t) (Reaches-IsAsApproved r) k row found approved
  Reaches-IsAsApproved {s = s} (documents new m dto {t = t} r) k row found approved =
      Saves-AllApproved s t (submit_documents repo new m dto t).1
        (submit_documents-Saves repo new m dto t) (Reaches-IsAsApproved r) k row found approved
  Reaches-IsAsApproved {s = s} (asks new m {t = t} r) k row found approved =
      Saves-AllApproved s t (get_status repo new m t).1 (get_status-Saves repo new m t)
        (Reaches-IsAsApproved r) k row found approved
  Reaches-IsAsApproved {s = s} (shows new m {t = t} r) k row found approved =
      Saves-AllApproved s t (get_profile repo new m t).1
        (rw (get_profile-state repo new m t) (get_status-Saves repo new m t))
        (Reaches-IsAsApproved r) k row found approved
  Reaches-IsAsApproved {s = s} (updates new m dto actor {t = t} r) k row found approved =
      Saves-AllApproved s t (update_profile repo new m dto actor t).1
        (update_profile-Saves repo new m dto actor t) (Reaches-IsAsApproved r) k row found approved
