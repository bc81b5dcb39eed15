-- ===== src/Idempotency/Interceptor.antt =====
-- `IdempotencyInterceptor.intercept` of modules/payments/idempotency.interceptor.ts, for a request that
-- has the header `idempotency-key`; any other one goes straight to its handler. The handler is
-- given by what it returns or throws; the update of the response is taken to be done when the
-- response goes out.
pub mod Laws
use facilpay_api.Common.{ℕ, Bool, true, false, Option, none, some, List}
use facilpay_api.Common.Action.{Result, ok, err}
use facilpay_api.Repository.{Repository}
use facilpay_api.Idempotency.{
  Response, IdempotencyKey, returned, Round, check_or_claim_key, update_response, delete_key,
}

module _ (repo : Repository IdempotencyKey (λ r. r.key)) where
  -- What the client is told, whether the handler ran, and the table.
  pub record Handled : Type 0 where
    pub reply : Result (Option ℕ)
    pub ran : Bool
    pub table : repo.Table

  -- The handler runs, and the row of the key takes its response or is deleted.
  pub run_handler : ℕ → Result Response → repo.Table → Handled
  run_handler key (ok response) t = record {
    reply = ok (returned response);
    ran = true;
    table = update_response repo key response t;
  }
  run_handler key (err e) t = record { reply = err e; ran = true; table = delete_key repo key t }

  -- What follows the check: a null means that the key was claimed.
  pub after_check : ℕ → Result Response → Result (Option ℕ) × repo.Table → Handled
  unfolding run_handler
  after_check key handler (ok none, t) = run_handler key handler t
  after_check key handler (ok (some v), t) = record { reply = ok (some v); ran = false; table = t }
  after_check key handler (err e, t) = record { reply = err e; ran = false; table = t }

  pub intercept : List (Round repo) → ℕ → ℕ → ℕ → ℕ → Result Response → repo.Table → Handled
  unfolding after_check
  intercept rounds now ttl_hours key hash handler t =
      after_check key handler (check_or_claim_key repo now ttl_hours key hash rounds t)
