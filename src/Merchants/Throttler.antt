-- ===== src/Merchants/Throttler.antt =====
-- modules/throttler/merchant-throttler.guard.ts: the rate limit of a request. The counting of requests is
-- that of the package throttler: what `super.handleRequest` is called with is modelled.
pub mod Laws
use facilpay_api.Common.{
  ℕ, ◌≡◌, Bool, true, false, ◌&&◌, Option, none, some, ◌==◌, if◌then◌else◌, or_else,
}
use facilpay_api.Common.Action.{Result, ok, err}
use facilpay_api.Accounts.Entities.{User}

pub record RateLimitOverride : Type 0 where
  pub limit : ℕ
  pub ttl : ℕ

-- What the guard reads of an API key.
pub record ApiKeyLimits : Type 0 where
  pub user_id : ℕ
  pub rate_limit_limit : Option ℕ
  pub rate_limit_ttl : Option ℕ

pub record Request : Type 0 where
  pub api_key : Option ApiKeyLimits
  -- `req.user?.id`
  pub user_id : Option ℕ

-- A number that JavaScript reads as true: 0 is not.
abbrev pub truthy : Option ℕ → Option ℕ
truthy none = none
truthy (some n) = if n == 0 then none else some n

module _ (find_user : ℕ → Result User) (default_ttl : ℕ) where
  abbrev pub limit_of : Bool → Option ℕ → Option ℕ → Option RateLimitOverride
  limit_of true (some limit) (some ttl) = some (record { limit = limit; ttl = ttl })
  limit_of true (some limit) none = none
  limit_of true none ttl = none
  limit_of false limit ttl = none

  -- A user that cannot be found has no limit of its own.
  unfoldable pub user_override : Option ℕ → Option RateLimitOverride
  user_override none = none
  user_override (some id) = elim (find_user id) [
    | err e ↦ none
    | ok user ↦
        limit_of user.rate_limit_enabled (truthy user.rate_limit_limit) (truthy user.rate_limit_ttl)
  ]

  -- The limit of the key comes first.
  unfoldable pub resolve_rate_limit_override : Request → Option RateLimitOverride
  resolve_rate_limit_override req = elim req.api_key [
    | none ↦ user_override req.user_id
    | some key ↦ elim (truthy key.rate_limit_limit) [
      | none ↦ user_override (some key.user_id)
      | some limit ↦
          some (record { limit = limit; ttl = or_else (truthy key.rate_limit_ttl) default_ttl })
    ]
  ]

  -- The limit and the time that the request is counted with, in the bucket `default` or another one.
  unfoldable pub handle_request : Bool → RateLimitOverride → Request → RateLimitOverride
  handle_request is_default configured req =
      if is_default then or_else (resolve_rate_limit_override req) configured else configured
