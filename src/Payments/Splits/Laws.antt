-- ===== src/Payments/Splits/Laws.antt =====
-- Proofs about `processSplitsForPayment`.
use facilpay_api.Common.{
  ℕ, ◌≡◌, ◌≢◌, refl, sym, ◌∙◌, ◌⊎◌, inl, inr, true, false, some, List, [], ◌∷◌, arith, ◌==◌,
  if◌then◌else◌, All, All-map, In, Bool-cases, List-cases, ltb,
}
use facilpay_api.Common.Action.{ok}
use facilpay_api.Model.Entities.{Payment, PaymentStatus, PaymentSplit, is_pending_split}
use facilpay_api.Model.State.{Database, State}
use facilpay_api.Payments.Splits.{
  Sent, hash, thrown, executed, failures, is_due_split, execute_splits, mark_partial, notify_splits,
  run_splits, process_splits,
}

executed-not_pending :
    (sent : Sent) (x : PaymentSplit) → is_pending_split (executed sent x).status ≡ false
unfolding executed
executed-not_pending (hash h) x = refl
executed-not_pending (thrown r) x = refl

executed-id : (sent : Sent) (x : PaymentSplit) → (executed sent x).id ≡ x.id
unfolding executed
executed-id (hash h) x = refl
executed-id (thrown r) x = refl

-- A list has an element of the identifier, or none.
id-cases :
    (k : ℕ) (l : List PaymentSplit)
    → ((x : PaymentSplit) × In x l × (x.id ≡ k)) ⊎ All (λ x. x.id ≢ k) l
id-cases k [] = inr tt
id-cases k (x ∷ l) = elim (Bool-cases (x.id == k)) [
  | inl same ↦ inl (x, inl refl, ground arith)
  | inr other ↦ elim (id-cases k l) [
    | inl (y, h, e) ↦ inl (y, inr h, e)
    | inr h ↦ inr (ground arith, h)
  ]
]

All-In :
    (P : PaymentSplit → Type 0) (x : PaymentSplit) (l : List PaymentSplit) → All P l → In x l → P x
All-In P x [] h m = absurd m
All-In P x (y ∷ l) h (inl e) = rw e h.0
All-In P x (y ∷ l) h (inr m) = All-In P x l h.1 m

none_of_All : (l : List PaymentSplit) → All (λ x. ⊥) l → l ≡ []
none_of_All [] h = refl
none_of_All (x ∷ l) h = absurd h.0

-- The failures of a run of the loop, from a count on.
abbrev pub count_failures : (PaymentSplit → Sent) → List PaymentSplit → ℕ → ℕ
count_failures send_payment [] failed = failed
count_failures send_payment (x ∷ l) failed =
    count_failures send_payment l (failures (send_payment x) failed)

abbrev pub partial : Payment → Payment
partial p = record p { status = PaymentStatus.partially_completed }

module _ {db : Database} where
  abbrev IsSettled : ℕ → State db → Type 0
  IsSettled k s =
      (x : PaymentSplit)
      → db.splits.find_one k s.tables.splits ≡ some x
      → is_pending_split x.status ≡ false

  module _ (send_payment : PaymentSplit → Sent) where
    abbrev after : List PaymentSplit → ℕ → State db → State db
    after l failed s = (execute_splits send_payment l failed s).1

    -- One round of the loop, when the write goes through.
    abbrev saved : PaymentSplit → State db → State db
    saved x s =
        let splits = db.splits.save (executed (send_payment x) x) s.tables.splits in
        let tables = record s.tables { splits = splits } in record s { tables = tables }

    execute_splits-cons :
        (x : PaymentSplit) (l : List PaymentSplit) (failed : ℕ) (s : State db)
        → s.faults ≡ []
        → execute_splits send_payment (x ∷ l) failed s
          ≡ execute_splits send_payment l (failures (send_payment x) failed) (saved x s)
    unfolding execute_splits
    execute_splits-cons x l failed s f = ground arith

    saved-IsSettled_self : (x : PaymentSplit) (s : State db) → IsSettled x.id (saved x s)
    saved-IsSettled_self x s y e = ground (
      arith,
      db.splits.find_one-save (executed (send_payment x) x) x.id s.tables.splits,
      executed-not_pending (send_payment x) x,
      executed-id (send_payment x) x,
    )

    saved-IsSettled :
        (k : ℕ) (x : PaymentSplit) (s : State db) → IsSettled k s → IsSettled k (saved x s)
    saved-IsSettled k x s h y e = ground (
      arith,
      h y,
      db.splits.find_one-save (executed (send_payment x) x) k s.tables.splits,
      executed-not_pending (send_payment x) x,
    )

    execute_splits-IsSettled :
        (k : ℕ) (l : List PaymentSplit) (failed : ℕ) (s : State db)
        → s.faults ≡ []
        → IsSettled k s
        → IsSettled k (after l failed s)
    unfolding execute_splits
    execute_splits-IsSettled k [] failed s f h = h
    execute_splits-IsSettled k (x ∷ l) failed s f h =
        rw (execute_splits-cons x l failed s f, after)
          (execute_splits-IsSettled k l (failures (send_payment x) failed) (saved x s) f
            (saved-IsSettled k x s h))

    execute_splits-settles :
        (x : PaymentSplit) (l : List PaymentSplit) (failed : ℕ) (s : State db)
        → s.faults ≡ []
        → In x l
        → IsSettled x.id (after l failed s)
    execute_splits-settles x [] failed s f m = absurd m
    execute_splits-settles x (y ∷ l) failed s f (inl e) =
        rw (e, execute_splits-cons y l failed s f, after)
          (execute_splits-IsSettled y.id l (failures (send_payment y) failed) (saved y s) f
            (saved-IsSettled_self y s))
    execute_splits-settles x (y ∷ l) failed s f (inr m) =
        rw (execute_splits-cons y l failed s f, after)
          (execute_splits-settles x l (failures (send_payment y) failed) (saved y s) f m)

    execute_splits-others :
        (k : ℕ) (l : List PaymentSplit) (failed : ℕ) (s : State db)
        → s.faults ≡ []
        → All (λ x. x.id ≢ k) l
        → db.splits.find_one k (after l failed s).tables.splits
          ≡ db.splits.find_one k s.tables.splits
    unfolding execute_splits
    execute_splits-others k [] failed s f h = refl
    execute_splits-others k (x ∷ l) failed s f h =
        rw (execute_splits-cons x l failed s f, after)
          (ground (
            arith,
            execute_splits-others k l (failures (send_payment x) failed) (saved x s) f h.1,
            db.splits.find_one-save (executed (send_payment x) x) k s.tables.splits,
            executed-id (send_payment x) x,
          ))

    execute_splits-result :
        (l : List PaymentSplit) (failed : ℕ) (s : State db)
        → s.faults ≡ []
        → ((execute_splits send_payment l failed s).0 ≡ ok (count_failures send_payment l failed))
          × ((after l failed s).faults ≡ [])
    unfolding execute_splits
    execute_splits-result [] failed s f = (refl, f)
    execute_splits-result (x ∷ l) failed s f =
        rw (execute_splits-cons x l failed s f, after)
          (execute_splits-result l (failures (send_payment x) failed) (saved x s) f)

    module _ (p : Payment) (s : State db) (f : s.faults ≡ []) where
      abbrev due : List PaymentSplit
      due = db.splits.find (is_due_split p.id) s.tables.splits

      process_splits_writes :
          (process_splits send_payment p s).1.tables.splits ≡ (after due 0 s).tables.splits
      unfolding process_splits run_splits mark_partial notify_splits execute_splits
      process_splits_writes = elim (List-cases due) [
        | inl e ↦ ground (arith, execute_splits-result due 0 s f, e)
        | inr (x, l, e) ↦ ground (arith, execute_splits-result due 0 s f)
      ]

      not_due :
          (x : PaymentSplit)
          → (is_due_split p.id x ≡ true)
            × (db.splits.find_one x.id (after due 0 s).tables.splits ≡ some x)
          → ⊥
      not_due x (h, e) = elim (id-cases x.id due) [
        | inl (y, m, same) ↦ ground (arith, execute_splits-settles y due 0 s f m x (rw same e))
        | inr other ↦
            let before : db.splits.find_one x.id s.tables.splits ≡ some x =
              sym (execute_splits-others x.id due 0 s f other) ∙ e in
            All-In (λ z. z.id ≢ x.id) x due other
              (db.splits.find_complete (is_due_split p.id) s.tables.splits x h before) refl
      ]

      -- When no write fails, processing the splits of a payment leaves none of them pending,
      -- whatever the transfers do.
      pub process_splits_drained :
          db.splits.find (is_due_split p.id) (process_splits send_payment p s).1.tables.splits ≡ []
      process_splits_drained =
          let settled = (after due 0 s).tables.splits in
          let none_due : db.splits.find (is_due_split p.id) settled ≡ [] =
            none_of_All _
              (All-map _ _ not_due _ (db.splits.find_sound (is_due_split p.id) settled)) in
          rw process_splits_writes none_due

      -- When no write fails, the call returns, and later writes do not fail either: the payment is
      -- partially completed if a transfer of a pending split failed, and as it was otherwise.
      pub process_splits_returns :
          (u : Payment) × ((process_splits send_payment p s).0 ≡ ok u)
          × ((process_splits send_payment p s).1.faults ≡ [])
          × (u ≡ (if ltb 0 (count_failures send_payment due 0) then partial p else p))
      unfolding process_splits run_splits mark_partial notify_splits
      process_splits_returns =
          let u = if ltb 0 (count_failures send_payment due 0) then partial p else p in
          elim (List-cases due) [
            | inl e ↦ (u, ground (arith, e), ground (arith, e), refl)
            | inr (x, l, e) ↦ (
              u,
              ground (arith, execute_splits-result due 0 s f),
              ground (arith, execute_splits-result due 0 s f),
              refl,
            )
          ]
