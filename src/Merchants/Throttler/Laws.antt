-- ===== src/Merchants/Throttler/Laws.antt =====
-- No override shuts a client out.
use facilpay_api.Common.{
  ℕ, ◌≡◌, ◌<◌, inl, inr, Bool, true, false, Option, none, some, or_else, arith, Option-cases,
}
use facilpay_api.Common.Action.{Result, Result-cases}
use facilpay_api.Accounts.Entities.{User}
use facilpay_api.Merchants.Throttler.{
  RateLimitOverride, Request, truthy, limit_of, user_override, resolve_rate_limit_override,
  handle_request,
}

-- At least one request in a time that is not empty.
abbrev pub IsPositive : RateLimitOverride → Type 0
IsPositive o = (0 < o.limit) × (0 < o.ttl)

abbrev IsOpen : Option RateLimitOverride → Type 0
IsOpen none = Unit
IsOpen (some o) = IsPositive o

truthy_positive : (o : Option ℕ) (n : ℕ) → truthy o ≡ some n → 0 < n
truthy_positive none n h = ground (arith, h)
truthy_positive (some m) n h = ground (arith, h)

or_else-IsPositive :
    (o : Option RateLimitOverride) (d : RateLimitOverride)
    → IsOpen o
    → IsPositive d
    → IsPositive (or_else o d)
or_else-IsPositive none d h g = g
or_else-IsPositive (some o) d h g = h

module _ (find_user : ℕ → Result User) (default_ttl : ℕ) where
  limit_of-IsOpen :
      (enabled : Bool) (limit ttl : Option ℕ)
      → IsOpen (limit_of find_user default_ttl enabled (truthy limit) (truthy ttl))
  limit_of-IsOpen false limit ttl = tt
  limit_of-IsOpen true limit ttl = elim (Option-cases (truthy limit)) [
    | inl e ↦ rw (e) tt
    | inr (l, e) ↦ elim (Option-cases (truthy ttl)) [
      | inl f ↦ rw (e, f) tt
      | inr (t, f) ↦ rw (e, f) (truthy_positive limit l e, truthy_positive ttl t f)
    ]
  ]

  user_override-IsOpen : (id : Option ℕ) → IsOpen (user_override find_user default_ttl id)
  unfolding user_override
  user_override-IsOpen none = tt
  user_override-IsOpen (some id) = elim (Result-cases (find_user id)) [
    | inl (user, e) ↦
        rw (e, user_override)
          (limit_of-IsOpen user.rate_limit_enabled user.rate_limit_limit user.rate_limit_ttl)
    | inr (x, e) ↦ rw (e, user_override) tt
  ]

  ttl-positive : (o : Option ℕ) → 0 < default_ttl → 0 < or_else (truthy o) default_ttl
  ttl-positive o h = elim (Option-cases (truthy o)) [
    | inl e ↦ rw (e) h
    | inr (n, e) ↦ rw (e) (truthy_positive o n e)
  ]

  resolve-IsOpen :
      (req : Request)
      → 0 < default_ttl
      → IsOpen (resolve_rate_limit_override find_user default_ttl req)
  unfolding resolve_rate_limit_override
  resolve-IsOpen req h = elim (Option-cases req.api_key) [
    | inl e ↦ rw (e, resolve_rate_limit_override) (user_override-IsOpen req.user_id)
    | inr (key, e) ↦ elim (Option-cases (truthy key.rate_limit_limit)) [
      | inl f ↦ rw (e, f, resolve_rate_limit_override) (user_override-IsOpen (some key.user_id))
      | inr (limit, f) ↦
          rw (e, f, resolve_rate_limit_override)
            (truthy_positive key.rate_limit_limit limit f, ttl-positive key.rate_limit_ttl h)
    ]
  ]

  -- If the configured limits are positive, a request is counted with positive ones, whatever limits its
  -- key and its user have, and whether the user is found or not.
  pub handle_request-IsPositive :
      (is_default : Bool) (configured : RateLimitOverride) (req : Request)
      → 0 < default_ttl
      → IsPositive configured
      → IsPositive (handle_request find_user default_ttl is_default configured req)
  unfolding handle_request
  handle_request-IsPositive true configured req h positive =
      or_else-IsPositive (resolve_rate_limit_override find_user default_ttl req) configured
        (resolve-IsOpen req h) positive
  handle_request-IsPositive false configured req h positive = positive
