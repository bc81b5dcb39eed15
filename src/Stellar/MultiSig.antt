-- ===== src/Stellar/MultiSig.antt =====
-- modules/stellar/stellar.service.ts: sendPayment, signTransaction and handleStellarError, and
-- multi-sig-transaction.entity.ts. What the library of Stellar and the Horizon server give is an argument:
-- the transaction that is built, one with another signature, the account, and the submission.

pub mod Rows
pub mod Signers
use facilpay_api.Common.{
  ℕ, ◌+◌, Bool, true, false, not, Option, none, some, List, [], ◌∷◌, ◌++◌, ltb, leb, ◌==◌,
  if◌then◌else◌, includes,
}
use facilpay_api.Common.Action.{
  Result, ok, err, Error, not_found, bad_request, failure, ◌>>=◌, ◌>>◌, pure, throw, or_throw,
  throw_if,
}
use facilpay_api.Common.Store.{Store, write, emit}
use facilpay_api.Repository.{Repository}

pub data MultiSigTransactionStatus : Type 0 where
  pending_signatures submitted failed : MultiSigTransactionStatus

abbrev pub is_pending : MultiSigTransactionStatus → Bool
is_pending MultiSigTransactionStatus.pending_signatures = true
is_pending MultiSigTransactionStatus.submitted = false
is_pending MultiSigTransactionStatus.failed = false

pub record MultiSigTransaction : Type 0 where
  pub id : ℕ
  pub xdr : ℕ
  pub source_account : ℕ
  pub status : MultiSigTransactionStatus
  pub required_signatures : ℕ
  -- the sum of the weights
  pub collected_signatures : ℕ
  pub signers : List ℕ
  pub transaction_hash : Option ℕ

pub record Account : Type 0 where
  pub id : ℕ
  -- public keys and weights
  pub signers : List (ℕ × ℕ)
  pub med_threshold : ℕ

pub data Submission : Type 0 where
  -- hash and ledger
  accepted : ℕ → ℕ → Submission
  -- 'op_low_reserve' or 'tx_insufficient_balance'
  insufficient : Submission
  -- any other refusal or failure
  rejected : Submission

pub record Outside : Type 0 where
  -- `none` when it throws, here and below
  pub account : Option Account
  -- the transaction, built and signed with the key of the service
  pub built : Option ℕ
  pub public_key : ℕ
  -- `addSignature` on a transaction: key and signature
  pub with_signature : ℕ → ℕ → ℕ → Option ℕ
  pub submission : Submission
  pub new : ℕ

pub record SignTransactionDto : Type 0 where
  pub public_key : ℕ
  pub signature : ℕ

pub data Sent : Type 0 where
  -- `submitTransaction`
  submitted_xdr : ℕ → Sent
  multisig_required multisig_completed : ℕ → ℕ → Sent

pub data Payment : Type 0 where
  -- hash and ledger
  paid : ℕ → ℕ → Payment
  -- the transaction, the threshold and the weight
  waiting : ℕ → ℕ → ℕ → Payment

-- `signers.find(s => s.key === key)`, and its weight or 0
unfoldable pub weight_of : ℕ → List (ℕ × ℕ) → ℕ
weight_of key [] = 0
weight_of key ((k, weight) ∷ rest) = if k == key then weight else weight_of key rest

unfoldable pub new_transaction : Outside → Account → ℕ → MultiSigTransaction
new_transaction outside account xdr = record {
  id = outside.new;
  xdr = xdr;
  source_account = account.id;
  status = MultiSigTransactionStatus.pending_signatures;
  required_signatures = account.med_threshold;
  collected_signatures = weight_of outside.public_key account.signers;
  signers = outside.public_key ∷ [];
  transaction_hash = none;
}

unfoldable pub signed : ℕ → ℕ → ℕ → MultiSigTransaction → MultiSigTransaction
signed xdr key weight tx = record tx {
  xdr = xdr;
  collected_signatures = tx.collected_signatures + weight;
  signers = tx.signers ++ key ∷ [];
}

unfoldable pub completed : ℕ → MultiSigTransaction → MultiSigTransaction
completed hash tx = record tx {
  status = MultiSigTransactionStatus.submitted;
  transaction_hash = some hash;
}

abbrev pub notice : Option ℕ → (ℕ → Sent) → List Sent
notice none event = []
notice (some merchant) event = event merchant ∷ []

-- The exception that `handleStellarError` throws.
pub handle_stellar_error : Submission → Error
handle_stellar_error insufficient = bad_request
handle_stellar_error rejected = failure
handle_stellar_error (accepted hash ledger) = failure

module _ (repo : Repository MultiSigTransaction (λ r. r.id)) where
  abbrev pub State : Type 0
  State = Store repo.Table Sent

  -- A catch block that throws the same exception whatever was thrown.
  unfoldable pub rescue : {A : Type 0} → Error → Result A × State → Result A × State
  rescue e (ok a, s) = (ok a, s)
  rescue e (err x, s) = (err e, s)

  unfoldable pub ask_signers :
      Outside → Option ℕ → MultiSigTransaction → State → Result Payment × State
  ask_signers outside merchant tx = do
    write (repo.save tx)
    emit (notice merchant (λ m. multisig_required m tx.id))
    pure (waiting tx.id tx.required_signatures tx.collected_signatures)

  unfoldable pub submit_payment : Outside → ℕ → State → Result Payment × State
  submit_payment outside xdr = do
    emit (submitted_xdr xdr ∷ [])
    elim outside.submission [
      | accepted hash ledger ↦ pure (paid hash ledger)
      | other ↦ throw (handle_stellar_error other)
    ]

  -- Each exception goes through `handleStellarError`, which throws an internal error for those that have
  -- no result codes.
  unfoldable pub send_payment : Outside → Option ℕ → State → Result Payment × State
  send_payment outside merchant = do
    account ← or_throw outside.account failure
    xdr ← or_throw outside.built failure
    if ltb (weight_of outside.public_key account.signers) account.med_threshold
        then ask_signers outside merchant (new_transaction outside account xdr)
        else submit_payment outside xdr

  unfoldable pub submit_signed :
      Outside → Option ℕ → MultiSigTransaction → State → Result MultiSigTransaction × State
  submit_signed outside merchant tx = do
    emit (submitted_xdr tx.xdr ∷ [])
    elim outside.submission [
      | accepted hash ledger ↦ (do
        emit (notice merchant (λ m. multisig_completed m tx.id))
        write (repo.save (completed hash tx))
        pure (completed hash tx))
      | other ↦ throw failure
    ]

  unfoldable pub add_signature :
      Outside
      → SignTransactionDto
      → Option ℕ
      → MultiSigTransaction
      → State
      → Result MultiSigTransaction × State
  add_signature outside dto merchant tx = do
    xdr ← or_throw (outside.with_signature tx.xdr dto.public_key dto.signature) failure
    account ← or_throw outside.account failure
    let weight = weight_of dto.public_key account.signers
    throw_if (weight == 0) bad_request
    let after = signed xdr dto.public_key weight tx
    if leb after.required_signatures after.collected_signatures
        then submit_signed outside merchant after
        else write (repo.save after) >> pure after

  unfoldable pub sign_transaction :
      Outside → ℕ → SignTransactionDto → Option ℕ → State → Result MultiSigTransaction × State
  sign_transaction outside id dto merchant = do
    tx ← λ s. or_throw (repo.find_one id s.tables) not_found s
    throw_if (not (is_pending tx.status)) bad_request
    throw_if (includes dto.public_key tx.signers) bad_request
    λ s. rescue bad_request (add_signature outside dto merchant tx s)
