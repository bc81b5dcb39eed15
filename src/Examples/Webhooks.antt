-- ===== src/Examples/Webhooks.antt =====
-- The theorems on webhooks at concrete requests and deliveries.
use facilpay_api.Common.{
  ℕ, ◌+◌, ◌≤◌, ◌≡◌, refl, ◌↔◌, inl, inr, true, false, Option, none, some, [], ◌∷◌, or_else,
  Bool-cases, ap, arith, ◌==◌,
}
use mathlib.Core.Path.{subst}
use facilpay_api.Common.Int.{ℤ, pos}
use facilpay_api.Repository.{Repository}
use facilpay_api.Repository.Rows.{rows}
use facilpay_api.Webhooks.Signature.{
  Text, Config, configure, Request, differences, constant_time_compare, verify_signature,
  compare_signature, generate_signature, check_nonce, remember, prune_expired_nonces,
}
use facilpay_api.Webhooks.Signature.Laws.{verify_signature_iff, IsSigned, IsFresh}
use facilpay_api.Webhooks.Signature.Replay.{run, verify_signature_replay}
use facilpay_api.Webhooks.Delivery.{
  WebhookDeliveryStatus, WebhookDelivery, max_attempts, rejected, attempted, attempt, find_due,
}
use facilpay_api.Webhooks.Delivery.Laws.{Refines, IsScheduled, attempted-Refines}
use facilpay_api.Webhooks.Delivery.Attempts.{Serves, Serves-bounded, AllScheduled, count}
use facilpay_api.Model.Entities.{PaymentStatus}

abbrev hex : Text
hex = 97 ∷ 98 ∷ []

-- A keyed hash, and the value of a text of one code.
abbrev keyed : ℕ → Text → Text
keyed secret text = secret ∷ text

abbrev value : Text → Option ℤ
value [] = none
value (x ∷ xs) = some (pos x)

abbrev config : Config
config = configure (some 3) (pos 5) true

abbrev request : Request
request = record {
  payload = 65 ∷ [];
  signature = 3 ∷ 1000 ∷ 46 ∷ 65 ∷ [];
  timestamp = 1000 ∷ [];
  nonce = some 8;
}

request_accepted : (verify_signature keyed value config 2000 request []).0 ≡ true
unfolding verify_signature compare_signature check_nonce remember constant_time_compare differences
    generate_signature prune_expired_nonces
request_accepted = refl

verify_signature_iff_example :
    ((verify_signature keyed value config 2000 request []).0 ≡ true)
    ↔ (IsSigned keyed value config 2000 request × IsFresh keyed value config 2000 (some 8) [])
verify_signature_iff_example = verify_signature_iff keyed value config 2000 request []

verify_signature_replay_example :
    (verify_signature keyed value config 2500 request (
      run keyed value config
        ((2200, request) ∷ [])
        (verify_signature keyed value config 2000 request []).1)).0
    ≡ false
verify_signature_replay_example =
    verify_signature_replay keyed value config 2000 2500 8 request request ((2200, request) ∷ []) []
      refl refl request_accepted (omega arith, omega arith) refl refl

abbrev deliveries : Repository WebhookDelivery (λ r. r.id)
deliveries = rows (λ r. r.id)

abbrev delivery : WebhookDelivery
delivery = record {
  id = 1;
  payment_id = 7;
  callback_url = 44;
  payload = record {
    payment_id = 7;
    status = PaymentStatus.completed;
    amount = pos 1000;
    currency = 1;
    external_reference = none;
    updated_at = 10;
  };
  status = WebhookDeliveryStatus.failed;
  attempt_count = 4;
  last_attempt_at = some 100;
  next_retry_at = some 7200100;
  last_status_code = some 500;
  last_error = none;
}

delivery-IsScheduled : IsScheduled delivery
delivery-IsScheduled = (omega arith, (100, 7200000, refl, refl, refl))

attempted-Refines_example :
    Refines (rejected none []) delivery (attempted 7200200 (rejected none []) delivery)
attempted-Refines_example =
    attempted-Refines 7200200 (rejected none []) delivery delivery-IsScheduled refl

deliveries-AllScheduled : AllScheduled deliveries (delivery ∷ [])
deliveries-AllScheduled k d found = elim (Bool-cases (1 == k)) [
  | inl e ↦
      let same : some delivery ≡ some d = ground (arith, e, found) in
      subst IsScheduled (ap (λ o. or_else o d) same) delivery-IsScheduled
  | inr e ↦ ground (arith, e, found)
]

delivery_due :
    Serves deliveries 1 1
      (delivery ∷ [])
      (attempt deliveries 7200200 (rejected none []) false delivery (delivery ∷ [])).1
unfolding find_due
delivery_due =
    Serves.attempts 0 7200200 (rejected none []) delivery (delivery ∷ []) (delivery ∷ [])
      (Serves.starts (delivery ∷ [])) (inl refl)

Serves-bounded_example : count deliveries 1 (delivery ∷ []) + 1 ≤ max_attempts
Serves-bounded_example =
    Serves-bounded deliveries 1 1 (delivery ∷ []) _ deliveries-AllScheduled delivery_due
