-- ===== src/PaymentLinks/Creation.antt =====
-- payment-links.service.ts: create and validateSlug, with create-payment-link.dto.ts. The entity has no
-- columns for the required and the custom fields, and the DTO declares none of these and no slug; the
-- slug is what the service reads, where it is not the empty text.
pub mod Found
use facilpay_api.Common.{
  ℕ, Bool, true, false, not, ◌&&◌, ◌||◌, Option, none, some, List, [], ◌∷◌, leb, ◌==◌, length,
  if◌then◌else◌, first, includes, is_some, or_else, some_eq, ⊤,
}
use facilpay_api.Common.Action.{
  Result, ok, bad_request, conflict, ◌>>=◌, ◌>>◌, pure, throw_if, gets,
}
use facilpay_api.Common.Text.{Text}
use facilpay_api.Model.Entities.{PaymentLink}
use facilpay_api.Model.State.{Database, State, write}

pub record CreatePaymentLinkDto : Type 0 where
  pub amount : Option ℕ
  pub flexible_amount : Option Bool
  pub min_amount : Option ℕ
  pub currency : ℕ
  pub description : Option ℕ
  pub expires_at : Option ℕ
  pub max_completions : Option ℕ
  pub slug : Option ℕ

-- The codes of a text, and the numbers of `RESERVED_SLUGS`.
pub record Slugs : Type 0 where
  pub codes : ℕ → Text
  pub reserved : List ℕ

-- `[a-z0-9-]`
abbrev pub is_slug_code : ℕ → Bool
is_slug_code c = (leb 97 c && leb c 122) || (leb 48 c && leb c 57) || c == 45

abbrev pub all_codes : Text → Bool
all_codes [] = true
all_codes (c ∷ text) = is_slug_code c && all_codes text

-- `/^[a-z0-9-]{3,64}$/`
unfoldable pub has_slug_syntax : Text → Bool
has_slug_syntax text = all_codes text && leb 3 (length text) && leb (length text) 64

-- `maxCompletions` of the DTO is not used.
unfoldable pub new_link : ℕ → ℕ → CreatePaymentLinkDto → ℕ → PaymentLink
new_link new token dto merchant_id = record {
  id = new;
  token = token;
  slug = dto.slug;
  amount = if or_else dto.flexible_amount false then none else dto.amount;
  flexible_amount = or_else dto.flexible_amount false;
  min_amount = dto.min_amount;
  currency = dto.currency;
  description = dto.description;
  expires_at = dto.expires_at;
  is_active = true;
  views = 0;
  completions = 0;
  max_completions = none;
  merchant_id = merchant_id;
}

module _ {db : Database} where
  unfoldable pub validate_slug : Slugs → ℕ → State db → Result ⊤ × State db
  validate_slug slugs slug = do
    throw_if (not (has_slug_syntax (slugs.codes slug))) bad_request
    throw_if (includes slug slugs.reserved) bad_request

  unfoldable pub check_slug : Slugs → Option ℕ → State db → Result ⊤ × State db
  check_slug slugs none = pure tt
  check_slug slugs (some slug) = do
    validate_slug slugs slug
    t ← gets (λ s. s.tables)
    throw_if (is_some (first (db.links.find (λ l. some_eq l.slug slug) t.links))) conflict

  unfoldable pub create :
      Slugs → ℕ → ℕ → CreatePaymentLinkDto → ℕ → State db → Result PaymentLink × State db
  create slugs new token dto merchant_id = do
    throw_if (not (or_else dto.flexible_amount false) && not (is_some dto.amount)) bad_request
    check_slug slugs dto.slug
    write (λ t. record t { links = db.links.save (new_link new token dto merchant_id) t.links })
    pure (new_link new token dto merchant_id)
