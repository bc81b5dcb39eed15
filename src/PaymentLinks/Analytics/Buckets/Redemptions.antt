-- ===== src/PaymentLinks/Analytics/Buckets/Redemptions.antt =====
-- The redemptions of the buckets of getAnalytics and of its total.
use facilpay_api.Common.{
  ℕ, suc, ◌+◌, ◌-◌, ◌/◌, ◌%◌, ◌≤◌, ◌<◌, ◌≡◌, ◌≢◌, ◌⊎◌, inl, inr, refl, sym, ◌∙◌, Bool, true, false,
  ◌&&◌, ◌==◌, none, some, List, [], ◌∷◌, or_else, arith, All, All-map, Bool-cases,
}
use facilpay_api.Common.Action.{ok, err, failure}
use facilpay_api.Repository.{Repository}
use facilpay_api.Model.Entities.{PaymentLink}
use facilpay_api.Model.State.{Database, Tables}
use facilpay_api.PaymentLinks.Analytics.{PaymentLinkEvent}
use facilpay_api.PaymentLinks.Analytics.Buckets.{
  Interval, EventCount, count_event, is_same_type, split_dates, total_redemptions, GetAnalyticsDto,
  AnalyticsResponseDto, one_day, date_of, group_events, no_counts, group_by_date, build_buckets,
  range_from, range_to, in_range, interval_of, analytics_of, get_analytics,
}
use facilpay_api.PaymentLinks.Analytics.Buckets.Sums.{
  redeems, bucket_redemptions, total_redemptions-group_events, on_date, group_by_date-redeem,
  sum_dates-on_date, group_events-All, bucket_redemptions-buckets_from, sum_dates-ext,
}

-- On a range that does not start later in its day than it ends, the redemptions of the daily buckets add
-- up to those of the events in the range.
build_buckets-redeems :
    (from to : ℕ) (events : List PaymentLinkEvent)
    → from ≤ to
    → from % one_day ≤ to % one_day
    → All (λ e. (from ≤ e.created_at) × (e.created_at ≤ to)) events
    → bucket_redemptions (build_buckets from to Interval.day (group_events events)) ≡ redeems events
unfolding build_buckets
build_buckets-redeems from to events le clock within =
    let n = (to - from) / one_day in
    let counts = group_events events in
    let dates = group_by_date counts (λ date. none) in
    let dated : All (λ row. (date_of from ≤ row.date) × (row.date < date_of from + suc n)) counts =
      group_events-All (λ date. (date_of from ≤ date) × (date < date_of from + suc n)) events
        (All-map (λ e. (from ≤ e.created_at) × (e.created_at ≤ to))
          (λ e.
            (date_of from ≤ date_of e.created_at) × (date_of e.created_at < date_of from + suc n))
          (λ e h. (omega (arith, h), omega (arith, h))) events within) in
    bucket_redemptions-buckets_from n dates to from le refl
    ∙ sum_dates-ext (λ d. (or_else (dates d) no_counts).redeem) (λ d. on_date d counts)
        (λ d. ground (arith, group_by_date-redeem counts (λ date. none) d)) (date_of from) (suc n)
    ∙ sum_dates-on_date counts (date_of from) (suc n) dated
    ∙ total_redemptions-group_events events

find-within :
    (repo : Repository PaymentLinkEvent (λ r. r.id)) (id from to : ℕ) (t : repo.Table)
    → All (λ e. (from ≤ e.created_at) × (e.created_at ≤ to)) (repo.find (in_range id from to) t)
find-within repo id from to t =
    All-map (λ e. (in_range id from to e ≡ true) × (repo.find_one e.id t ≡ some e))
      (λ e. (from ≤ e.created_at) × (e.created_at ≤ to))
      (λ e h. (ground (arith, h.0), ground (arith, h.0))) (repo.find (in_range id from to) t)
      (repo.find_sound (in_range id from to) t)

-- No event is without a group.
count_event_cons :
    (e : PaymentLinkEvent) (rows : List EventCount)
    → (row : EventCount) × (rest : List EventCount) × (count_event e rows ≡ row ∷ rest)
unfolding count_event
count_event_cons e [] = (record { date = date_of e.created_at; type = e.type; count = 1 }, [], refl)
count_event_cons e (row ∷ rows) =
    elim (Bool-cases (row.date == date_of e.created_at && is_same_type row.type e.type)) [
      | inl same ↦ (record row { count = row.count + 1 }, rows, rw (same) refl)
      | inr other ↦ (row, count_event e rows, rw (other) refl)
    ]

split_dates_text : (counts : List EventCount) → split_dates true counts ≡ ok tt
unfolding split_dates
split_dates_text [] = refl
split_dates_text (e ∷ counts) = split_dates_text counts

split_dates_cases :
    (is_text : Bool) (events : List PaymentLinkEvent)
    → ((is_text ≡ false)
        × (events ≢ [])
        × (split_dates is_text (group_events events) ≡ err failure))
      ⊎ (((is_text ≡ true) ⊎ (events ≡ [])) × (split_dates is_text (group_events events) ≡ ok tt))
unfolding split_dates group_events
split_dates_cases true events = inr (inl refl, split_dates_text (group_events events))
split_dates_cases false [] = inr (inr refl, refl)
split_dates_cases false (e ∷ events) =
    let (row, rest, cons) = count_event_cons e (group_events events) in
    inl (refl, λ none_. ground (arith, none_), ground (arith, cons))

module _ {db : Database} (repo : Repository PaymentLinkEvent (λ r. r.id)) where
  -- A merchant asks for the analytics of a link of theirs, with the interval of a day and a range that
  -- does not start later in its day than it ends in its, as that of thirty days does not. When the
  -- driver gives dates that are no texts, and there is an event in the range, the call throws.
  -- Otherwise it returns; the total of redemptions is the number of the link's events of that type in
  -- the range, and the buckets have that many together.
  pub get_analytics-redemptions :
      (is_text : Bool) (now id merchant : ℕ) (dto : GetAnalyticsDto) (link : PaymentLink)
      (t : Tables db × repo.Table)
      → db.links.find_one id t.0.links ≡ some link
      → link.merchant_id ≡ merchant
      → interval_of dto ≡ Interval.day
      → range_from now dto ≤ range_to now dto
      → range_from now dto % one_day ≤ range_to now dto % one_day
      → let events = repo.find (in_range id (range_from now dto) (range_to now dto)) t.1 in
        let answer = (get_analytics repo is_text now id merchant dto t).0 in
        ((is_text ≡ false) × (events ≢ []) × (answer ≡ err failure))
        ⊎ (((is_text ≡ true) ⊎ (events ≡ []))
            × ((a : AnalyticsResponseDto) × (answer ≡ ok a)
                × (a.total.redemptions ≡ redeems events)
                × (bucket_redemptions a.buckets ≡ a.total.redemptions)))
  unfolding get_analytics analytics_of
  get_analytics-redemptions is_text now id merchant dto link t found own daily le clock =
      let from = range_from now dto in
      let to = range_to now dto in
      let events = repo.find (in_range id from to) t.1 in
      let total = total_redemptions-group_events events in
      let sum : bucket_redemptions (analytics_of now id dto link events).buckets
          ≡ total_redemptions (group_events events) =
        rw (daily) (
          build_buckets-redeems from to events le clock (find-within repo id from to t.1)
          ∙ sym total) in
      elim (split_dates_cases is_text events) [
        | inl (dated, some_event, throws) ↦
            inl (dated, some_event, ground (arith, found, own, throws))
        | inr (readable, passes) ↦ inr (
          readable,
          (analytics_of now id dto link events, ground (arith, found, own, passes), total, sum),
        )
      ]
