-- ===== src/Examples/Stellar.antt =====
-- The theorem on transactions with several signatures, at a concrete table.
use facilpay_api.Common.{none, some, [], ◌∷◌, arith}
use facilpay_api.Repository.{Repository}
use facilpay_api.Repository.Rows.{rows}
use facilpay_api.Stellar.MultiSig.{
  MultiSigTransaction, Account, accepted, Outside, SignTransactionDto, State, send_payment,
  sign_transaction,
}
use facilpay_api.Stellar.MultiSig.Signers.{AllConsistent, Reaches, Reaches-AllConsistent}

abbrev table : Repository MultiSigTransaction (λ r. r.id)
table = rows (λ r. r.id)

-- The key of the service has weight 1 of 3, another one has weight 2.
abbrev account : Account
account = record { id = 4; signers = (10, 1) ∷ (11, 2) ∷ []; med_threshold = 3 }

abbrev outside : Outside
outside = record {
  account = some account;
  built = some 20;
  public_key = 10;
  with_signature = λ xdr key signature. some 21;
  submission = accepted 30 31;
  new = 1;
}

abbrev empty : State table
empty = record { tables = []; outbox = []; faults = [] }

abbrev dto : SignTransactionDto
dto = record { public_key = 11; signature = 12 }

Reaches-AllConsistent_example :
    AllConsistent table
      (sign_transaction table outside 1 dto none (send_payment table outside (some 5) empty).1).1
Reaches-AllConsistent_example =
    Reaches-AllConsistent table {s = empty} (λ k tx e. ground (arith, e))
      (Reaches.signs outside 1 dto none (Reaches.sends outside (some 5) Reaches.here))
