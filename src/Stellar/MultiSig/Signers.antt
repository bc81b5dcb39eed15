-- ===== src/Stellar/MultiSig/Signers.antt =====
-- The transactions that are stored: who signed them, and how far they are.
use facilpay_api.Common.{
  ℕ, ◌≤◌, ◌≡◌, refl, ◌⊎◌, inl, inr, false, Option, some, ltb, leb, ◌==◌, includes, arith,
  Bool-cases, Option-cases, List-cases,
}
use facilpay_api.Common.Action.{Result, ok, err, Error, bad_request}
use facilpay_api.Common.Store.{write}
use facilpay_api.Repository.{Repository}
use facilpay_api.Stellar.MultiSig.{
  MultiSigTransactionStatus, is_pending, MultiSigTransaction, Outside, SignTransactionDto, State,
  weight_of, new_transaction, signed, completed, rescue, ask_signers, submit_payment, send_payment,
  submit_signed, add_signature, sign_transaction,
}
use facilpay_api.Stellar.MultiSig.Rows.{
  IsDistinct, IsConsistent, new_transaction-IsConsistent, signed-IsConsistent, signed_enough,
  signed_below, signed-IsDistinct, is_pending-eq, Submission-cases,
}

module _ (repo : Repository MultiSigTransaction (λ r. r.id)) where
  abbrev pub AllConsistent : State repo → Type 0
  AllConsistent s =
      (k : ℕ) (tx : MultiSigTransaction) → repo.find_one k s.tables ≡ some tx → IsConsistent tx

  -- What a call does to the table: nothing, or one consistent row is saved.
  abbrev Saves : State repo → State repo → Type 0
  Saves s s' =
      (s'.tables ≡ s.tables)
      ⊎ ((tx : MultiSigTransaction) × IsConsistent tx × (s'.tables ≡ repo.save tx s.tables))

  Saves-AllConsistent : (s s' : State repo) → Saves s s' → AllConsistent s → AllConsistent s'
  Saves-AllConsistent s s' (inl same) all k tx found = all k tx (rw (← same) found)
  Saves-AllConsistent s s' (inr (x, fits, saved)) all k tx found = elim (Bool-cases (x.id == k)) [
    | inl own ↦
        let is_row : x ≡ tx = ground (arith, own, saved, found, repo.find_one-save x k s.tables) in
        rw (← is_row) fits
    | inr other ↦ all k tx (ground (arith, other, saved, found, repo.find_one-save x k s.tables))
  ]

  write-Saves :
      (tx : MultiSigTransaction) (s : State repo)
      → IsConsistent tx
      → Saves s (write (repo.save tx) s).1
  write-Saves tx s fits = elim (List-cases s.faults) [
    | inl e ↦ inr (tx, fits, ground (arith, e))
    | inr (x, rest, e) ↦ elim (Bool-cases x) [
      | inl fails ↦ inl (ground (arith, e, fails))
      | inr works ↦ inr (tx, fits, ground (arith, e, works))
    ]
  ]

  send_payment-Saves :
      (outside : Outside) (merchant : Option ℕ) (s : State repo)
      → Saves s (send_payment repo outside merchant s).1
  unfolding send_payment ask_signers submit_payment
  send_payment-Saves outside merchant s = elim (Option-cases outside.account) [
    | inl e ↦ inl (ground (arith, e))
    | inr (account, e) ↦ elim (Option-cases outside.built) [
      | inl f ↦ inl (ground (arith, e, f))
      | inr (xdr, f) ↦
          elim (Bool-cases
            (ltb (weight_of outside.public_key account.signers) account.med_threshold)) [
              | inl below ↦
                  let tx = new_transaction outside account xdr in
                  elim (write-Saves tx s (new_transaction-IsConsistent outside account xdr below)) [
                    | inl same ↦ inl (ground (arith, e, f, below, same))
                    | inr (x, fits, saved) ↦ inr (x, fits, ground (arith, e, f, below, saved))
                  ]
              | inr reached ↦ inl (ground (arith, e, f, reached))
            ]
    ]
  ]

  submit_signed-Saves :
      (outside : Outside) (merchant : Option ℕ) (tx : MultiSigTransaction) (s : State repo)
      → tx.required_signatures ≤ tx.collected_signatures
      → IsDistinct tx.signers
      → Saves s (submit_signed repo outside merchant tx s).1
  unfolding submit_signed completed
  submit_signed-Saves outside merchant tx s enough distinct =
      elim (Submission-cases outside.submission) [
        | inr (inl e) ↦ inl (ground (arith, e))
        | inr (inr e) ↦ inl (ground (arith, e))
        | inl (hash, ledger, e) ↦ elim (List-cases s.faults) [
          | inl f ↦ inr (
            completed hash tx,
            record { fits = (enough, refl); distinct = distinct },
            ground (arith, e, f),
          )
          | inr (x, rest, f) ↦ elim (Bool-cases x) [
            | inl fails ↦ inl (ground (arith, e, f, fails))
            | inr works ↦ inr (
              completed hash tx,
              record { fits = (enough, refl); distinct = distinct },
              ground (arith, e, f, works),
            )
          ]
        ]
      ]

  add_signature-Saves :
      (outside : Outside) (dto : SignTransactionDto) (merchant : Option ℕ)
      (tx : MultiSigTransaction) (s : State repo)
      → IsConsistent tx
      → tx.status ≡ MultiSigTransactionStatus.pending_signatures
      → includes dto.public_key tx.signers ≡ false
      → Saves s (add_signature repo outside dto merchant tx s).1
  unfolding add_signature
  add_signature-Saves outside dto merchant tx s h pending new =
      elim (Option-cases (outside.with_signature tx.xdr dto.public_key dto.signature)) [
        | inl e ↦ inl (ground (arith, e))
        | inr (xdr, e) ↦ elim (Option-cases outside.account) [
          | inl f ↦ inl (ground (arith, e, f))
          | inr (account, f) ↦
              let weight = weight_of dto.public_key account.signers in
              let after = signed xdr dto.public_key weight tx in
              elim (Bool-cases (weight == 0)) [
                | inl none_ ↦ inl (ground (arith, e, f, none_))
                | inr some_ ↦
                    elim (Bool-cases (leb after.required_signatures after.collected_signatures)) [
                      | inl reached ↦
                          let submitted =
                            submit_signed-Saves outside merchant after s
                              (signed_enough xdr dto.public_key weight tx reached)
                              (signed-IsDistinct xdr dto.public_key weight tx h new) in
                          elim submitted [
                            | inl same ↦ inl (ground (arith, e, f, some_, reached, same))
                            | inr (x, fits, saved) ↦
                                inr (x, fits, ground (arith, e, f, some_, reached, saved))
                          ]
                      | inr below ↦
                          elim (write-Saves after s (
                            signed-IsConsistent xdr dto.public_key weight tx h pending new
                              (signed_below xdr dto.public_key weight tx below))) [
                                | inl same ↦ inl (ground (arith, e, f, some_, below, same))
                                | inr (x, fits, saved) ↦
                                    inr (x, fits, ground (arith, e, f, some_, below, saved))
                              ]
                    ]
              ]
        ]
      ]

  rescue_state : {A : Type 0} (x : Error) (r : Result A × State repo) → (rescue repo x r).1 ≡ r.1
  unfolding rescue
  rescue_state x (ok a, s) = refl
  rescue_state x (err e, s) = refl

  sign_transaction-Saves :
      (outside : Outside) (id : ℕ) (dto : SignTransactionDto) (merchant : Option ℕ) (s : State repo)
      → AllConsistent s
      → Saves s (sign_transaction repo outside id dto merchant s).1
  unfolding sign_transaction
  sign_transaction-Saves outside id dto merchant s all =
      elim (Option-cases (repo.find_one id s.tables)) [
        | inl e ↦ inl (ground (arith, e))
        | inr (tx, e) ↦ elim (Bool-cases (is_pending tx.status)) [
          | inr done ↦ inl (ground (arith, e, done))
          | inl pending ↦ elim (Bool-cases (includes dto.public_key tx.signers)) [
            | inl again ↦ inl (ground (arith, e, pending, again))
            | inr new ↦
                let kept =
                  rescue_state bad_request (add_signature repo outside dto merchant tx s) in
                elim (add_signature-Saves outside dto merchant tx s (all id tx e)
                  (is_pending-eq tx.status pending) new) [
                    | inl same ↦ inl (ground (arith, e, pending, new, kept, same))
                    | inr (x, fits, saved) ↦
                        inr (x, fits, ground (arith, e, pending, new, kept, saved))
                  ]
          ]
        ]
      ]

  -- What calls of the service reach.
  pub data Reaches (s : State repo) : State repo → Type 0 where
    here : Reaches s s
    sends :
        (outside : Outside) (merchant : Option ℕ) {t : State repo}
        → Reaches s t
        → Reaches s (send_payment repo outside merchant t).1
    signs :
        (outside : Outside) (id : ℕ) (dto : SignTransactionDto) (merchant : Option ℕ)
        {t : State repo}
        → Reaches s t
        → Reaches s (sign_transaction repo outside id dto merchant t).1

  -- From consistent rows, payments and signatures, whatever fails in them, reach consistent rows only: no
  -- key signs a transaction twice, one that is pending lacks weight, one that is submitted has the
  -- weight that it requires and a hash, and none is marked as failed.
  pub Reaches-AllConsistent : {s t : State repo} → AllConsistent s → Reaches s t → AllConsistent t
  Reaches-AllConsistent h here = h
  Reaches-AllConsistent h (sends outside merchant {t = t} r) =
      Saves-AllConsistent t (send_payment repo outside merchant t).1
        (send_payment-Saves outside merchant t) (Reaches-AllConsistent h r)
  Reaches-AllConsistent h (signs outside id dto merchant {t = t} r) =
      let kept = Reaches-AllConsistent h r in
      Saves-AllConsistent t (sign_transaction repo outside id dto merchant t).1
        (sign_transaction-Saves outside id dto merchant t kept) kept
