-- ===== src/Stellar/MultiSig/Rows.antt =====
-- A stored transaction that is consistent, and the rows that the code makes of one.
use facilpay_api.Common.{
  ℕ, ◌+◌, ◌≤◌, ◌<◌, ◌≡◌, refl, ◌⊎◌, inl, inr, true, false, Option, List, [], ◌∷◌, ◌++◌, ltb, leb,
  ◌==◌, includes, is_some, arith,
}
use facilpay_api.Stellar.MultiSig.{
  MultiSigTransactionStatus, is_pending, MultiSigTransaction, Account, Submission, accepted,
  insufficient, rejected, Outside, weight_of, new_transaction, signed,
}

-- No key twice.
abbrev pub IsDistinct : List ℕ → Type 0
IsDistinct [] = Unit
IsDistinct (k ∷ ks) = (includes k ks ≡ false) × IsDistinct ks

includes-append :
    (k j : ℕ) (ks : List ℕ)
    → includes k ks ≡ false
    → (j == k) ≡ false
    → includes k (ks ++ j ∷ []) ≡ false
includes-append k j [] h e = ground (arith, e)
includes-append k j (i ∷ ks) h e = ground (arith, h, e, includes-append k j ks)

append-IsDistinct :
    (j : ℕ) (ks : List ℕ) → IsDistinct ks → includes j ks ≡ false → IsDistinct (ks ++ j ∷ [])
append-IsDistinct j [] h e = (refl, tt)
append-IsDistinct j (k ∷ ks) h e =
    (includes-append k j ks h.0 (ground (arith, e)), append-IsDistinct j ks h.1 (ground (arith, e)))

-- A pending transaction lacks weight; a submitted one has it, and a hash; none is failed.
abbrev pub Fits : MultiSigTransactionStatus → ℕ → ℕ → Option ℕ → Type 0
Fits MultiSigTransactionStatus.pending_signatures collected required hash = collected < required
Fits MultiSigTransactionStatus.submitted collected required hash =
    (required ≤ collected) × (is_some hash ≡ true)
Fits MultiSigTransactionStatus.failed collected required hash = ⊥

pub record IsConsistent (tx : MultiSigTransaction) : Type 0 where
  pub fits : Fits tx.status tx.collected_signatures tx.required_signatures tx.transaction_hash
  pub distinct : IsDistinct tx.signers

pub new_transaction-IsConsistent :
    (outside : Outside) (account : Account) (xdr : ℕ)
    → ltb (weight_of outside.public_key account.signers) account.med_threshold ≡ true
    → IsConsistent (new_transaction outside account xdr)
unfolding new_transaction
new_transaction-IsConsistent outside account xdr below = record {
  fits = ground (arith, below);
  distinct = (refl, tt);
}

pub signed-IsConsistent :
    (xdr key weight : ℕ) (tx : MultiSigTransaction)
    → IsConsistent tx
    → tx.status ≡ MultiSigTransactionStatus.pending_signatures
    → includes key tx.signers ≡ false
    → tx.collected_signatures + weight < tx.required_signatures
    → IsConsistent (signed xdr key weight tx)
unfolding signed
signed-IsConsistent xdr key weight tx h pending new below = record {
  fits = rw (pending) below;
  distinct = append-IsDistinct key tx.signers h.distinct new;
}

pub signed_enough :
    (xdr key weight : ℕ) (tx : MultiSigTransaction)
    → let after = signed xdr key weight tx in
      leb after.required_signatures after.collected_signatures ≡ true
      → after.required_signatures ≤ after.collected_signatures
unfolding signed
signed_enough xdr key weight tx h = ground (arith, h)

pub signed_below :
    (xdr key weight : ℕ) (tx : MultiSigTransaction)
    → let after = signed xdr key weight tx in
      leb after.required_signatures after.collected_signatures ≡ false
      → tx.collected_signatures + weight < tx.required_signatures
unfolding signed
signed_below xdr key weight tx h = ground (arith, h)

pub signed-IsDistinct :
    (xdr key weight : ℕ) (tx : MultiSigTransaction)
    → IsConsistent tx
    → includes key tx.signers ≡ false
    → IsDistinct (signed xdr key weight tx).signers
unfolding signed
signed-IsDistinct xdr key weight tx h new = append-IsDistinct key tx.signers h.distinct new

pub is_pending-eq :
    (status : MultiSigTransactionStatus)
    → is_pending status ≡ true
    → status ≡ MultiSigTransactionStatus.pending_signatures
is_pending-eq status h = ground (arith, h)

pub Submission-cases :
    (x : Submission)
    → ((hash : ℕ) × (ledger : ℕ) × (x ≡ accepted hash ledger))
      ⊎ ((x ≡ insufficient) ⊎ (x ≡ rejected))
Submission-cases (accepted hash ledger) = inl (hash, ledger, refl)
Submission-cases insufficient = inr (inl refl)
Submission-cases rejected = inr (inr refl)
