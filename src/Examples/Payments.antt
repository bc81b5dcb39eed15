-- ===== src/Examples/Payments.antt =====
-- Payments at concrete tables.
use facilpay_api.Common.{
  ◌≡◌, ◌≤◌, ◌⊎◌, ◌+◌, ◌/◌, ◌%◌, ℕ, refl, inr, none, some, [], ◌∷◌, arith, ◌==◌, if◌then◌else◌, true,
  false,
}
use facilpay_api.Common.Int.{pos, ◌-ℤ◌}
use facilpay_api.Common.Action.{ok, failure}
use facilpay_api.PaymentLinks.{RedeemPaymentLinkDto, find_link}
use facilpay_api.Model.Entities.{PaymentLink, PaymentStatus, Payment, Refund}
use facilpay_api.Model.State.{State}
use facilpay_api.Model.Tables.{lists, empty_tables}
use facilpay_api.Payments.Refund.{RefundPaymentDto, NewIds, refund, refund_checks, refund_writes}
use facilpay_api.Payments.Refund.Laws.{
  refund-atomic, refund_accepted, IsRefundable, IsPaidBack, IsRefundOf,
}
use facilpay_api.Payments.Refund.Bounds.{refund-AllWithin, AllWithin, IsWithin}
use facilpay_api.Payments.Splits.{process_splits, is_due_split}
use facilpay_api.Payments.Splits.Laws.{process_splits_drained}
use facilpay_api.Payments.Fee.{fee_of_config, exact_fee, UpsertMerchantFeeConfigDto}
use facilpay_api.Payments.Fee.Laws.{IsToFixed, fee-net_sum}
use facilpay_api.Payments.Lifecycle.Expiry.{
  expire_pending_payments, IsExpiry, expire_pending_payments-IsExpiry,
}
use facilpay_api.Payments.Lifecycle.Webhook.{PaymentWebhookDto}
use facilpay_api.Payments.Lifecycle.Links.Laws.{AllOpen}
use facilpay_api.Payments.Lifecycle.Expiry.Complete.{expire_pending_payments_complete}
use facilpay_api.Examples.Data.{payment, split, state, send_none, config}

abbrev ids : NewIds
ids = record { refund = 8; adjustment = 9 }

abbrev dto : RefundPaymentDto
dto = record { amount = some (pos 600); reason_code = 1; reason = none }

abbrev too_much : RefundPaymentDto
too_much = record { amount = some (pos 601); reason_code = 1; reason = none }

abbrev completed : Payment
completed = payment PaymentStatus.completed

-- The second write fails.
abbrev broken : State lists
broken = state PaymentStatus.completed [] (false ∷ true ∷ [])

abbrev calm : State lists
calm = state PaymentStatus.completed (split ∷ []) []

refund-atomic_example : (refund 3 ids 7 dto none broken).1.tables ≡ broken.tables
unfolding refund refund_checks refund_writes ◌-ℤ◌
refund-atomic_example = refund-atomic 3 ids 7 dto none broken {e = failure} refl

within : IsWithin completed
within = record { refunded_nonneg = omega arith; refunded-le = omega arith }

all_within : AllWithin calm
all_within k p e = ground (arith, within)

refund-AllWithin_example : AllWithin (refund 3 ids 7 dto none calm).1
refund-AllWithin_example = refund-AllWithin 3 ids 7 dto none calm all_within (omega arith)

dto-IsRefundable : IsRefundable 3 0 dto completed
unfolding ◌-ℤ◌
dto-IsRefundable = record {
  not_pending = ground arith;
  not_refunded = ground arith;
  not_failed = ground arith;
  below_max = inr (omega arith);
  covered = omega arith;
}

too_much_refused : ¬ (IsRefundable 3 0 too_much completed)
unfolding ◌-ℤ◌
too_much_refused h = omega (arith, h.covered)

refund_accepted_example :
    let s' = (refund {db = lists} 3 ids 7 dto none calm).1 in
    (q : Payment) × (r : Refund) × ((refund {db = lists} 3 ids 7 dto none calm).0 ≡ ok (q, r))
    × IsPaidBack (pos 600) completed q
    × IsRefundOf ids (pos 600) completed dto none r
    × ((k : ℕ)
        → lists.payments.find_one k s'.tables.payments
          ≡ (if 7 == k then some q else lists.payments.find_one k calm.tables.payments))
    × ((k : ℕ)
        → lists.refunds.find_one k s'.tables.refunds
          ≡ (if 8 == k then some r else lists.refunds.find_one k calm.tables.refunds))
refund_accepted_example =
    refund_accepted 3 ids 7 dto none calm {p = completed} refl dto-IsRefundable refl

process_splits_drained_example :
    lists.splits.find (is_due_split 7) (process_splits send_none completed calm).1.tables.splits
    ≡ []
process_splits_drained_example = process_splits_drained send_none completed calm refl

abbrev report : PaymentStatus → PaymentWebhookDto
report status = record { payment_id = 7; status = status; external_reference = some 99 }

abbrev waiting : State lists
waiting = state PaymentStatus.pending (split ∷ []) []

expire_pending_payments-IsExpiry_example :
    let after = (expire_pending_payments (λ l. l) 60 100 waiting).tables.payments in
    (lists.payments.find_one 7 after ≡ lists.payments.find_one 7 waiting.tables.payments)
    ⊎ ((p : Payment) × (q : Payment) × (lists.payments.find_one 7 waiting.tables.payments ≡ some p)
        × (lists.payments.find_one 7 after ≡ some q)
        × IsExpiry 60 p q)
expire_pending_payments-IsExpiry_example =
    expire_pending_payments-IsExpiry (λ l. l) 60 100 waiting 7 (λ P l h. h)

-- The nearest hundredth, where a tie goes down.
abbrev half_down : ℕ → ℕ
half_down x = (x + 4999) / 10000

half_down-IsToFixed : IsToFixed half_down
half_down-IsToFixed = record { not_below = λ x. omega arith; not_above = λ x. omega arith }

fee-net_sum_example :
    let fee = fee_of_config half_down (some config) 1000 in
    (fee.fee_amount + fee.net_amount ≤ 1000 + 1)
    × (1000 ≤ fee.fee_amount + fee.net_amount + 1)
    × ((exact_fee config 1000 % 10000 ≡ 5000) ⊎ (fee.fee_amount + fee.net_amount ≡ 1000))
unfolding exact_fee
fee-net_sum_example = fee-net_sum half_down config 1000 half_down-IsToFixed (omega arith)

abbrev min_only : UpsertMerchantFeeConfigDto
min_only = record { flat_fee = none; percentage_fee = none; min_fee = some 70 }

-- A link that takes one payment.
abbrev link : PaymentLink
link = record {
  id = 2;
  token = 40;
  slug = none;
  amount = some 1000;
  flexible_amount = false;
  min_amount = none;
  currency = 1;
  description = none;
  expires_at = none;
  is_active = true;
  views = 0;
  completions = 0;
  max_completions = some 1;
  merchant_id = 3;
}

abbrev linked : State lists
linked = record { tables = record empty_tables { links = link ∷ [] }; outbox = []; faults = [] }

linked-AllOpen : AllOpen linked
linked-AllOpen k l e = ground arith

expire_pending_payments_complete_example :
    lists.payments.find_one 7 (expire_pending_payments (λ l. l) 60 100 waiting).tables.payments
    ≡ some (record (payment PaymentStatus.pending) {
      status = PaymentStatus.expired;
      expired_at = some 60;
    })
expire_pending_payments_complete_example =
    expire_pending_payments_complete 60 (λ l. l) 100 50 waiting (payment PaymentStatus.pending)
      (λ P l h. h) (λ x l m. m) (omega arith) refl refl refl refl (omega arith)

abbrev redeem_dto : RedeemPaymentLinkDto
redeem_dto = record {
  payer_amount = none;
  name = none;
  email = none;
  phone = none;
  custom_fields = [];
}

link_found : find_link 40 linked.tables ≡ some link
unfolding find_link
link_found = refl
