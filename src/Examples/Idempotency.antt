-- ===== src/Examples/Idempotency.antt =====
-- Requests with an idempotency key, at concrete tables.
use facilpay_api.Common.{◌≡◌, false, [], ◌∷◌, arith}
use facilpay_api.Common.Action.{ok}
use facilpay_api.Repository.{Repository}
use facilpay_api.Repository.Rows.{rows}
use facilpay_api.Idempotency.{in_progress, value, IdempotencyKey, Round, check_or_claim_key}
use facilpay_api.Idempotency.Laws.{Explains, check_or_claim_key-Explains}
use facilpay_api.Idempotency.Interceptor.{intercept}
use facilpay_api.Idempotency.Interceptor.Laws.{IsFree, intercept_twice}

abbrev table : Repository IdempotencyKey (λ r. r.key)
table = rows (λ r. r.key)

-- A key that expired at 40.
abbrev old : IdempotencyKey
old = record { key = 1; request_hash = 6; response = value 8; expires_at = 40 }

-- Another request claims the key before the insert.
abbrev raced : Round table
raced = record {
  before_insert =
      λ t. record { key = 1; request_hash = 6; response = in_progress; expires_at = 900 } ∷ t;
  before_find = λ t. t;
}

check_or_claim_key-Explains_example :
    Explains table 50 24 1 6 (check_or_claim_key table 50 24 1 6 (raced ∷ []) (old ∷ []))
check_or_claim_key-Explains_example =
    check_or_claim_key-Explains table 50 24 1 6 (raced ∷ []) (old ∷ [])

old-IsFree : IsFree table 50 1 (old ∷ [])
old-IsFree row e = ground arith

intercept_twice_example :
    (intercept table [] 60 24 1 6
      (ok (value 77))
      (intercept table [] 50 24 1 6 (ok (value 9)) (old ∷ [])).table).ran
    ≡ false
intercept_twice_example =
    (intercept_twice table 50 24 1 6 (old ∷ []) old-IsFree 60 24 (ok (value 77)) [] (omega arith)
      9).2
