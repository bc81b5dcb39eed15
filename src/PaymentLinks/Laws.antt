-- ===== src/PaymentLinks/Laws.antt =====
-- When a link can be redeemed.
use facilpay_api.Common.{ℕ, ◌≡◌, ◌↔◌, inl, inr, Bool, true, false, some, arith, Bool-cases, []}
use facilpay_api.Common.Action.{is_ok}
use facilpay_api.Model.Entities.{PaymentLink}
use facilpay_api.Model.State.{Database, State}
use facilpay_api.PaymentLinks.{
  RedeemPaymentLinkDto, validate_payer_fields, is_past, is_amount_refused, find_link,
  find_by_token_or_slug, redeem_link,
}

module _ {db : Database} where
  -- A link that is found can be redeemed, when no write fails, exactly when it is active, is not past
  -- its expiry, and is given an amount, not below its minimum, if its amount is flexible: what else
  -- the payer gives does not matter.
  redeem_link_iff :
      (is_number : ℕ → Bool) (now token_or_slug : ℕ) (dto : RedeemPaymentLinkDto)
      (link : PaymentLink) (s : State db)
      → find_link token_or_slug s.tables ≡ some link
      → s.faults ≡ []
      → (is_ok (redeem_link is_number now token_or_slug dto s).0 ≡ true) ↔ (
          (link.is_active ≡ true)
          × (is_past now link.expires_at ≡ false)
          × (is_amount_refused link dto.payer_amount ≡ false))
  unfolding redeem_link find_by_token_or_slug validate_payer_fields
  redeem_link_iff is_number now token_or_slug dto link s found f =
      elim (Bool-cases link.is_active) [
        | inr inactive ↦ ground (arith, found, f, inactive)
        | inl active ↦ elim (Bool-cases (is_past now link.expires_at)) [
          | inl old ↦ ground (arith, found, f, active, old)
          | inr fresh ↦ elim (Bool-cases (is_amount_refused link dto.payer_amount)) [
            | inl refused ↦ ground (arith, found, f, active, fresh, refused)
            | inr enough ↦ ground (arith, found, f, active, fresh, enough)
          ]
        ]
      ]
