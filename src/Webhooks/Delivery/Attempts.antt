-- ===== src/Webhooks/Delivery/Attempts.antt =====
-- The table of deliveries under payments that are enqueued and attempts on what is due.
use facilpay_api.Common.{
  ℕ, suc, ◌+◌, ◌≤◌, ◌≡◌, refl, ap, inl, inr, true, false, none, some, In, arith, Option-cases,
  Bool-cases, ◌==◌, if◌then◌else◌, or_else, All-In,
}
use mathlib.Core.Path.{subst}
use facilpay_api.Repository.{Repository}
use facilpay_api.Model.Entities.{Payment}
use facilpay_api.Webhooks.Delivery.{
  WebhookDelivery, max_attempts, Answer, attempted, new_delivery, is_due, is_open, enqueue, attempt,
  find_due, delivered_by, given_up, rescheduled,
}
use facilpay_api.Webhooks.Delivery.Laws.{IsScheduled, attempted-Refines}

new_delivery-IsScheduled :
    (new now url : ℕ) (payment : Payment) → IsScheduled (new_delivery new now url payment)
unfolding new_delivery
new_delivery-IsScheduled new now url payment = (refl, (now, refl))

attempted_count :
    (now : ℕ) (answer : Answer) (d : WebhookDelivery)
    → ((attempted now answer d).attempt_count ≡ d.attempt_count + 1)
      × ((attempted now answer d).id ≡ d.id)
unfolding attempted delivered_by given_up rescheduled
attempted_count now answer d = ground arith

scheduled_count : (d : WebhookDelivery) → IsScheduled d → d.attempt_count ≤ max_attempts
scheduled_count d h = ground (arith, h)

module _ (repo : Repository WebhookDelivery (λ r. r.id)) where
  -- The table after calls of the service with the number of attempts that went out for the delivery
  -- of an identifier; the writes that end the attempts do not fail, and the identifier of a new row is
  -- not in the table.
  pub data Serves (k : ℕ) : ℕ → repo.Table → repo.Table → Type 0 where
    starts : (t : repo.Table) → Serves k 0 t t
    enqueues :
        (n new now : ℕ) (payment : Payment) (t u : repo.Table)
        → Serves k n t u
        → repo.find_one new u ≡ none
        → Serves k n t (enqueue repo new now payment u)
    attempts :
        (n now : ℕ) (answer : Answer) (d : WebhookDelivery) (t u : repo.Table)
        → Serves k n t u
        → In d (find_due repo now u)
        → Serves k (if d.id == k then suc n else n) t (attempt repo now answer false d u).1

  abbrev pub AllScheduled : repo.Table → Type 0
  AllScheduled t = (k : ℕ) (d : WebhookDelivery) → repo.find_one k t ≡ some d → IsScheduled d

  abbrev pub count : ℕ → repo.Table → ℕ
  count k t = elim (repo.find_one k t) [ none ↦ 0 | some d ↦ d.attempt_count ]

  save-AllScheduled :
      (d : WebhookDelivery) (t : repo.Table)
      → IsScheduled d
      → AllScheduled t
      → AllScheduled (repo.save d t)
  save-AllScheduled d t h all k e found = elim (Bool-cases (d.id == k)) [
    | inl same ↦
        let here : some d ≡ some e = ground (arith, same, found, repo.find_one-save d k t) in
        subst IsScheduled (ap (λ o. or_else o d) here) h
    | inr other ↦ all k e (ground (arith, other, found, repo.find_one-save d k t))
  ]

  saved-count :
      (k n before : ℕ) (d after : WebhookDelivery) (u : repo.Table)
      → after.id ≡ d.id
      → after.attempt_count ≡ d.attempt_count + 1
      → repo.find_one d.id u ≡ some d
      → before + n ≤ count k u
      → before + (if d.id == k then suc n else n) ≤ count k (repo.save after u)
  saved-count k n before d after u same_id counted here h =
      ground (arith, same_id, counted, here, h, repo.find_one-save after k u)

  new_row-count :
      (k new now url : ℕ) (payment : Payment) (u : repo.Table)
      → repo.find_one new u ≡ none
      → count k (repo.save (new_delivery new now url payment) u) ≡ count k u
  unfolding new_delivery
  new_row-count k new now url payment u absent =
      ground (arith, absent, repo.find_one-save (new_delivery new now url payment) k u)

  attempt-counted :
      (k n before now : ℕ) (answer : Answer) (d : WebhookDelivery) (u : repo.Table)
      → AllScheduled u
      → before + n ≤ count k u
      → IsScheduled d
      → is_open d.status ≡ true
      → repo.find_one d.id u ≡ some d
      → AllScheduled (attempt repo now answer false d u).1
        × (before + (if d.id == k then suc n else n)
            ≤ count k (attempt repo now answer false d u).1)
  unfolding attempt
  attempt-counted k n before now answer d u all h scheduled due here =
      let after = attempted now answer d in
      let (counted, same_id) = attempted_count now answer d in
      (
        save-AllScheduled after u (attempted-Refines now answer d scheduled due).1 all,
        saved-count k n before d after u same_id counted here h,
      )

  enqueue-counted :
      (k new now : ℕ) (payment : Payment) (u : repo.Table)
      → repo.find_one new u ≡ none
      → AllScheduled u
      → AllScheduled (enqueue repo new now payment u)
        × (count k (enqueue repo new now payment u) ≡ count k u)
  unfolding enqueue new_delivery
  enqueue-counted k new now payment u absent all = elim (Option-cases payment.callback_url) [
    | inl e ↦ rw (e) (all, refl)
    | inr (url, e) ↦
        let row = new_delivery new now url payment in
        rw (e) (
          save-AllScheduled row u (new_delivery-IsScheduled new now url payment) all,
          new_row-count k new now url payment u absent,
        )
  ]

  -- A row that is due is scheduled, open and the current one of its key.
  due_row :
      (now : ℕ) (d : WebhookDelivery) (u : repo.Table)
      → AllScheduled u
      → In d (find_due repo now u)
      → IsScheduled d × (is_open d.status ≡ true) × (repo.find_one d.id u ≡ some d)
  unfolding find_due
  due_row now d u all m =
      let (due, here) = All-In _ d _ (repo.find_sound (is_due now) u) m in
      (all d.id d here, ground (arith, due), here)

  -- Of the delivery of an identifier, what was counted and what went out since is counted now.
  Serves-counted :
      (k n : ℕ) (t u : repo.Table)
      → AllScheduled t
      → Serves k n t u
      → AllScheduled u × (count k t + n ≤ count k u)
  Serves-counted k n t u all (starts t') = (all, omega arith)
  Serves-counted k n t u all (enqueues n' new now payment t' v path absent) =
      let (all', h) = Serves-counted k n t v all path in
      let (kept, same) = enqueue-counted k new now payment v absent all' in
      (kept, omega (arith, h, same))
  Serves-counted k n t u all (attempts n' now answer d t' v path m) =
      let (all', h) = Serves-counted k n' t v all path in
      let (scheduled, due, here) = due_row now d v all' m in
      attempt-counted k n' (count k t) now answer d v all' h scheduled due here

  -- From a table whose deliveries are scheduled, at most five attempts ever go out for one delivery,
  -- those before included, whatever payments are enqueued, whatever the answers are and however
  -- often what is due is tried, as long as the writes that end the attempts do not fail.
  pub Serves-bounded :
      (k n : ℕ) (t u : repo.Table) → AllScheduled t → Serves k n t u → count k t + n ≤ max_attempts
  Serves-bounded k n t u all path =
      let (all', h) = Serves-counted k n t u all path in
      elim (Option-cases (repo.find_one k u)) [
        | inl e ↦ ground (arith, e, h)
        | inr (d, e) ↦ ground (arith, e, h, scheduled_count d (all' k d e))
      ]
