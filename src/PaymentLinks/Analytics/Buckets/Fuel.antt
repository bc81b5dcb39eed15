-- ===== src/PaymentLinks/Analytics/Buckets/Fuel.antt =====
-- The loop of buildBuckets ends within the fuel that it is given.
use facilpay_api.Common.{
  ℕ, zero, suc, ◌+◌, ◌-◌, ◌*◌, ◌/◌, ◌<◌, ◌≤◌, ◌≡◌, refl, Option, none, arith, List,
}
use facilpay_api.PaymentLinks.Analytics.Buckets.{
  Interval, EventCount, Counts, one_day, step, group_by_date, buckets_from, build_buckets,
}

one_day-step : (interval : Interval) → one_day ≤ step interval
one_day-step Interval.day = omega arith
one_day-step Interval.week = omega arith

-- Two amounts of fuel that both reach past the range give the same buckets.
buckets_from_same :
    (n m : ℕ) (dates : ℕ → Option Counts) (interval : Interval) (to current : ℕ)
    → to < current + n * one_day
    → to < current + m * one_day
    → buckets_from n dates interval to current ≡ buckets_from m dates interval to current
unfolding buckets_from
buckets_from_same zero zero dates interval to current h k = refl
buckets_from_same zero (suc m) dates interval to current h k =
    let past : to < current = omega arith in ground (arith, past)
buckets_from_same (suc n) zero dates interval to current h k =
    let past : to < current = omega arith in ground (arith, past)
buckets_from_same (suc n) (suc m) dates interval to current h k =
    let far = one_day-step interval in
    let h' : to < current + step interval + n * one_day = omega arith in
    let k' : to < current + step interval + m * one_day = omega arith in
    let rest = buckets_from_same n m dates interval to (current + step interval) h' k' in
    rw (rest) refl

-- However much more fuel the loop has, the buckets are those of buildBuckets.
build_buckets_enough :
    (m from to : ℕ) (interval : Interval) (counts : List EventCount)
    → to < from + m * one_day
    → buckets_from m (group_by_date counts (λ date. none)) interval to from
      ≡ build_buckets from to interval counts
unfolding build_buckets
build_buckets_enough m from to interval counts h =
    buckets_from_same m (suc ((to - from) / one_day)) (group_by_date counts (λ date. none)) interval
      to from h (omega arith)
