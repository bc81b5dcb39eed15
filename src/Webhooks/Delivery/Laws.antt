-- ===== src/Webhooks/Delivery/Laws.antt =====
-- The life of a delivery: at most five attempts, the waiting time of each, and its end.
use facilpay_api.Common.{
  ℕ, ap, zero, suc, ◌+◌, ◌-◌, ◌≤◌, ◌≡◌, refl, sym, ◌⊎◌, inl, inr, true, Option, none, some, List,
  leb, arith, Bool-cases,
}
use mathlib.Core.Path.{subst}
use facilpay_api.Webhooks.Delivery.{
  WebhookDeliveryStatus, WebhookDelivery, max_attempts, backoff_delays_ms, get_elem?, Answer,
  responded, rejected, given_up, rescheduled, delivered_by, is_open, attempted,
}

-- What a delivery promises: it waits with a number of attempts that are left, or it has ended.
pub data Phase : Type 0 where
  waiting : ℕ → Phase
  succeeded abandoned : Phase

abbrev pub next : Answer → Phase → Phase
next (responded code) (waiting left) = succeeded
next (rejected code message) (waiting zero) = abandoned
next (rejected code message) (waiting (suc zero)) = abandoned
next (rejected code message) (waiting (suc (suc left))) = waiting (suc left)
next answer succeeded = succeeded
next answer abandoned = abandoned

abbrev pub phase : WebhookDelivery → Phase
phase delivery = elim delivery.status [
  | WebhookDeliveryStatus.delivered ↦ succeeded
  | WebhookDeliveryStatus.dead ↦ abandoned
  | _ ↦ waiting (max_attempts - delivery.attempt_count)
]

-- A delivery with attempts left has a time for the next one, that of the schedule after a failure;
-- one that has ended has none.
abbrev pub IsScheduled : WebhookDelivery → Type 0
IsScheduled delivery = elim delivery.status [
  | WebhookDeliveryStatus.pending ↦
      (delivery.attempt_count ≡ 0) × ((at : ℕ) × (delivery.next_retry_at ≡ some at))
  | WebhookDeliveryStatus.failed ↦
      (delivery.attempt_count + 1 ≤ max_attempts)
      × ((at : ℕ) × (delay : ℕ) × (delivery.last_attempt_at ≡ some at)
          × (get_elem? backoff_delays_ms (delivery.attempt_count - 1) ≡ some delay)
          × (delivery.next_retry_at ≡ some (at + delay)))
  | WebhookDeliveryStatus.delivered ↦
      (delivery.attempt_count ≤ max_attempts) × (delivery.next_retry_at ≡ none)
  | WebhookDeliveryStatus.dead ↦
      (delivery.attempt_count ≡ max_attempts) × (delivery.next_retry_at ≡ none)
]

-- The schedule has a delay for each attempt but the last.
backoff_defined :
    (i : ℕ) → i + 2 ≤ max_attempts → (delay : ℕ) × (get_elem? backoff_delays_ms i ≡ some delay)
backoff_defined zero h = (60000, refl)
backoff_defined (suc zero) h = (300000, refl)
backoff_defined (suc (suc zero)) h = (1800000, refl)
backoff_defined (suc (suc (suc zero))) h = (7200000, refl)
backoff_defined (suc (suc (suc (suc i)))) h = absurd (omega (arith, h))

open_count :
    (delivery : WebhookDelivery)
    → IsScheduled delivery
    → is_open delivery.status ≡ true
    → delivery.attempt_count + 1 ≤ max_attempts
open_count delivery h due = ground (arith, h, due)

attempted_rejected :
    (now : ℕ) (code : Option ℕ) (message : List ℕ) (delivery : WebhookDelivery)
    → is_open delivery.status ≡ true
    → IsScheduled delivery
    → ((delivery.attempt_count + 1 ≡ max_attempts)
        × (attempted now (rejected code message) delivery ≡ given_up now code message delivery))
      ⊎ ((delivery.attempt_count + 2 ≤ max_attempts)
          × (attempted now (rejected code message) delivery
              ≡ rescheduled now code message delivery))
unfolding attempted
attempted_rejected now code message delivery due h =
    let count = open_count delivery h due in
    elim (Bool-cases (leb max_attempts (delivery.attempt_count + 1))) [
      | inl last ↦ inl (ground (arith, last, count), rw (last) refl)
      | inr early ↦ inr (ground (arith, early), rw (early) refl)
    ]

rescheduled-IsScheduled :
    (now : ℕ) (code : Option ℕ) (message : List ℕ) (delivery : WebhookDelivery)
    → delivery.attempt_count + 2 ≤ max_attempts
    → IsScheduled (rescheduled now code message delivery)
unfolding rescheduled
rescheduled-IsScheduled now code message delivery h =
    let (delay, e) = backoff_defined (delivery.attempt_count + 1 - 1) (omega (arith, h)) in
    (omega (arith, h), (now, delay, refl, e, rw (e) refl))

phase_open :
    (delivery : WebhookDelivery)
    → is_open delivery.status ≡ true
    → phase delivery ≡ waiting (max_attempts - delivery.attempt_count)
phase_open delivery due = ground (arith, due)

-- The promise kept by the entity after an attempt.
abbrev pub Refines : Answer → WebhookDelivery → WebhookDelivery → Type 0
Refines answer before after = (phase after ≡ next answer (phase before)) × IsScheduled after

given_up-Refines :
    (now : ℕ) (code : Option ℕ) (message : List ℕ) (delivery : WebhookDelivery)
    → is_open delivery.status ≡ true
    → delivery.attempt_count + 1 ≡ max_attempts
    → Refines (rejected code message) delivery (given_up now code message delivery)
unfolding given_up
given_up-Refines now code message delivery due last =
    let left : max_attempts - delivery.attempt_count ≡ suc zero = omega (arith, last) in
    (rw (phase_open delivery due, left) refl, (omega (arith, last), refl))

rescheduled-Refines :
    (now : ℕ) (code : Option ℕ) (message : List ℕ) (delivery : WebhookDelivery)
    → is_open delivery.status ≡ true
    → delivery.attempt_count + 2 ≤ max_attempts
    → Refines (rejected code message) delivery (rescheduled now code message delivery)
unfolding rescheduled
rescheduled-Refines now code message delivery due early =
    let left : max_attempts - delivery.attempt_count
        ≡ suc (suc (max_attempts - delivery.attempt_count - 2)) =
      omega (arith, early) in
    let after : max_attempts - (delivery.attempt_count + 1)
        ≡ suc (max_attempts - delivery.attempt_count - 2) =
      omega (arith, early) in
    (
      rw (phase_open delivery due, left) (ap waiting after),
      rescheduled-IsScheduled now code message delivery early,
    )

delivered-Refines :
    (now code : ℕ) (delivery : WebhookDelivery)
    → is_open delivery.status ≡ true
    → IsScheduled delivery
    → Refines (responded code) delivery (delivered_by now code delivery)
unfolding delivered_by
delivered-Refines now code delivery due h =
    (rw (phase_open delivery due) refl, (omega (arith, open_count delivery h due), refl))

-- An attempt on a delivery that is scheduled and open does to it what the promise says: a success
-- ends it, a failure takes one of the attempts that are left, and the last failure gives it up. The
-- delivery stays scheduled.
pub attempted-Refines :
    (now : ℕ) (answer : Answer) (delivery : WebhookDelivery)
    → IsScheduled delivery
    → is_open delivery.status ≡ true
    → Refines answer delivery (attempted now answer delivery)
unfolding attempted
attempted-Refines now (responded code) delivery h due = delivered-Refines now code delivery due h
attempted-Refines now (rejected code message) delivery h due =
    elim (attempted_rejected now code message delivery due h) [
      | inl (last, e) ↦
          subst (Refines (rejected code message) delivery) (sym e)
            (given_up-Refines now code message delivery due last)
      | inr (early, e) ↦
          subst (Refines (rejected code message) delivery) (sym e)
            (rescheduled-Refines now code message delivery due early)
    ]
