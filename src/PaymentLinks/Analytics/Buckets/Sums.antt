-- ===== src/PaymentLinks/Analytics/Buckets/Sums.antt =====
-- Sums over the rows, the dates and the buckets of getAnalytics.
use facilpay_api.Common.{
  ℕ, zero, suc, ◌+◌, ◌-◌, ◌/◌, ◌≤◌, ◌<◌, ◌≡◌, refl, ap, ◌∙◌, inl, inr, Bool, true, ◌&&◌, Option,
  some, List, [], ◌∷◌, ◌==◌, if◌then◌else◌, or_else, arith, Bool-cases, All,
}
use facilpay_api.PaymentLinks.Analytics.{PaymentLinkEventType, PaymentLinkEvent}
use facilpay_api.PaymentLinks.Analytics.Buckets.{
  Interval, EventCount, Counts, AnalyticsBucketDto, one_day, date_of, is_same_type, count_event,
  group_events, total_redemptions, no_counts, add_count, group_by_date, buckets_from,
}

abbrev pub is_redeem : PaymentLinkEventType → Bool
is_redeem type = is_same_type type PaymentLinkEventType.redeem

-- How many of the events are redemptions.
unfoldable pub redeems : List PaymentLinkEvent → ℕ
redeems [] = 0
redeems (e ∷ events) = (if is_redeem e.type then 1 else 0) + redeems events

unfoldable pub bucket_redemptions : List AnalyticsBucketDto → ℕ
bucket_redemptions [] = 0
bucket_redemptions (b ∷ buckets) = b.redemptions + bucket_redemptions buckets

same_type_redeem :
    (x y : PaymentLinkEventType) → is_same_type x y ≡ true → is_redeem x ≡ is_redeem y
same_type_redeem PaymentLinkEventType.view PaymentLinkEventType.view h = refl
same_type_redeem PaymentLinkEventType.redeem PaymentLinkEventType.redeem h = refl
same_type_redeem PaymentLinkEventType.complete PaymentLinkEventType.complete h = refl
same_type_redeem PaymentLinkEventType.view PaymentLinkEventType.redeem h = ground (arith, h)
same_type_redeem PaymentLinkEventType.view PaymentLinkEventType.complete h = ground (arith, h)
same_type_redeem PaymentLinkEventType.redeem PaymentLinkEventType.view h = ground (arith, h)
same_type_redeem PaymentLinkEventType.redeem PaymentLinkEventType.complete h = ground (arith, h)
same_type_redeem PaymentLinkEventType.complete PaymentLinkEventType.view h = ground (arith, h)
same_type_redeem PaymentLinkEventType.complete PaymentLinkEventType.redeem h = ground (arith, h)

total_redemptions-count_event :
    (e : PaymentLinkEvent) (rows : List EventCount)
    → total_redemptions (count_event e rows)
      ≡ (if is_redeem e.type then 1 else 0) + total_redemptions rows
unfolding total_redemptions count_event
total_redemptions-count_event e [] = ground arith
total_redemptions-count_event e (row ∷ rows) =
    ground (arith, same_type_redeem row.type e.type, total_redemptions-count_event e rows)

pub total_redemptions-group_events :
    (events : List PaymentLinkEvent) → total_redemptions (group_events events) ≡ redeems events
unfolding group_events total_redemptions redeems
total_redemptions-group_events [] = refl
total_redemptions-group_events (e ∷ events) =
    total_redemptions-count_event e (group_events events)
    ∙ ap (λ n. (if is_redeem e.type then 1 else 0) + n) (total_redemptions-group_events events)

-- What a date contributes to the date `k`.
at_date : ℕ → ℕ → ℕ → ℕ
at_date date x k = if date == k then x else 0

abbrev redeemed : EventCount → ℕ
redeemed e = if is_redeem e.type then e.count else 0

-- The redemptions of the rows of a date.
pub on_date : ℕ → List EventCount → ℕ
on_date d [] = 0
on_date d (e ∷ counts) = at_date e.date (redeemed e) d + on_date d counts

add_count-redeem : (e : EventCount) (c : Counts) → (add_count e c).redeem ≡ redeemed e + c.redeem
unfolding add_count
add_count-redeem e c = ground arith

pub group_by_date-redeem :
    (counts : List EventCount) (dates : ℕ → Option Counts) (d : ℕ)
    → (or_else (group_by_date counts dates d) no_counts).redeem
      ≡ (or_else (dates d) no_counts).redeem + on_date d counts
unfolding group_by_date on_date at_date
group_by_date-redeem [] dates d = ground arith
group_by_date-redeem (e ∷ counts) dates d =
    let dates' : ℕ → Option Counts = λ date.
      if e.date == date then some (add_count e (or_else (dates date) no_counts)) else dates date in
    ground (
      arith,
      group_by_date-redeem counts dates' d,
      add_count-redeem e (or_else (dates d) no_counts),
    )

pub sum_dates : (ℕ → ℕ) → ℕ → ℕ → ℕ
sum_dates f d zero = 0
sum_dates f d (suc n) = f d + sum_dates f (d + 1) n

sum_dates-zero : (d n : ℕ) → sum_dates (λ k. 0) d n ≡ 0
unfolding sum_dates
sum_dates-zero d zero = refl
sum_dates-zero d (suc n) = ground (arith, sum_dates-zero (d + 1) n)

sum_dates-add :
    (f g : ℕ → ℕ) (d n : ℕ) → sum_dates (λ k. f k + g k) d n ≡ sum_dates f d n + sum_dates g d n
unfolding sum_dates
sum_dates-add f g d zero = refl
sum_dates-add f g d (suc n) = ground (arith, sum_dates-add f g (d + 1) n)

sum_dates-before : (date x d n : ℕ) → date < d → sum_dates (at_date date x) d n ≡ 0
unfolding sum_dates at_date
sum_dates-before date x d zero h = refl
sum_dates-before date x d (suc n) h =
    let later : date < d + 1 = omega arith in
    ground (arith, h, sum_dates-before date x (d + 1) n later)

sum_dates-at_date : (date x d n : ℕ) → d ≤ date → date < d + n → sum_dates (at_date date x) d n ≡ x
unfolding sum_dates at_date
sum_dates-at_date date x d zero low high = absurd (omega arith)
sum_dates-at_date date x d (suc n) low high = elim (Bool-cases (date == d)) [
  | inl now ↦
      let past : date < d + 1 = ground (arith, now) in
      ground (arith, now, sum_dates-before date x (d + 1) n past)
  | inr other ↦
      let low' : d + 1 ≤ date = ground (arith, other) in
      let high' : date < d + 1 + n = omega arith in
      ground (arith, other, sum_dates-at_date date x (d + 1) n low' high')
]

-- A row counts on one date.
pub sum_dates-on_date :
    (counts : List EventCount) (d n : ℕ)
    → All (λ e. (d ≤ e.date) × (e.date < d + n)) counts
    → sum_dates (λ k. on_date k counts) d n ≡ total_redemptions counts
unfolding on_date total_redemptions
sum_dates-on_date [] d n h = sum_dates-zero d n
sum_dates-on_date (e ∷ counts) d n h =
    sum_dates-add (at_date e.date (redeemed e)) (λ k. on_date k counts) d n
    ∙ ground (
      arith,
      sum_dates-at_date e.date (redeemed e) d n h.0.0 h.0.1,
      sum_dates-on_date counts d n h.1,
    )

count_event-All :
    (P : ℕ → Type 0) (e : PaymentLinkEvent) (rows : List EventCount)
    → P (date_of e.created_at)
    → All (λ row. P row.date) rows
    → All (λ row. P row.date) (count_event e rows)
unfolding count_event
count_event-All P e [] here there = (here, tt)
count_event-All P e (row ∷ rows) here there =
    elim (Bool-cases (row.date == date_of e.created_at && is_same_type row.type e.type)) [
      | inl same ↦ rw (same) there
      | inr other ↦ rw (other) (there.0, count_event-All P e rows here there.1)
    ]

pub group_events-All :
    (P : ℕ → Type 0) (events : List PaymentLinkEvent)
    → All (λ e. P (date_of e.created_at)) events
    → All (λ row. P row.date) (group_events events)
unfolding group_events
group_events-All P [] h = tt
group_events-All P (e ∷ events) h =
    count_event-All P e (group_events events) h.0 (group_events-All P events h.1)

-- The loop on days makes one bucket for each date of the range.
pub bucket_redemptions-buckets_from :
    (n : ℕ) (dates : ℕ → Option Counts) (to current : ℕ)
    → current ≤ to
    → (to - current) / one_day ≡ n
    → bucket_redemptions (buckets_from (suc n) dates Interval.day to current)
      ≡ sum_dates (λ d. (or_else (dates d) no_counts).redeem) (date_of current) (suc n)
unfolding buckets_from bucket_redemptions sum_dates
bucket_redemptions-buckets_from zero dates to current le e = ground (arith, le)
bucket_redemptions-buckets_from (suc n) dates to current le e =
    let le' : current + one_day ≤ to = omega arith in
    let e' : (to - (current + one_day)) / one_day ≡ n = omega arith in
    let next : date_of (current + one_day) ≡ date_of current + 1 = omega arith in
    let rest = bucket_redemptions-buckets_from n dates to (current + one_day) le' e' in
    ground (arith, le, next, rest)

pub sum_dates-ext :
    (f g : ℕ → ℕ) → ((k : ℕ) → f k ≡ g k) → (d n : ℕ) → sum_dates f d n ≡ sum_dates g d n
unfolding sum_dates
sum_dates-ext f g h d zero = refl
sum_dates-ext f g h d (suc n) = ground (arith, h d, sum_dates-ext f g h (d + 1) n)
