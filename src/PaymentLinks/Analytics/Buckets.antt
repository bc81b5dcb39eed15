-- ===== src/PaymentLinks/Analytics/Buckets.antt =====
-- payment-links.service.ts: getAnalytics and buildBuckets, with get-analytics.dto.ts. A date, which the
-- code takes for a text, is the number of its day, which is that of UTC for the database and the server.
pub mod Sums
mod Fuel
pub mod Redemptions
use facilpay_api.Common.{
  ℕ, zero, suc, ◌+◌, ◌-◌, ◌*◌, ◌/◌, Bool, true, false, not, ◌&&◌, Option, none, some, List, [], ◌∷◌,
  leb, ◌==◌, if◌then◌else◌, or_else, ⊤,
}
use facilpay_api.Common.Action.{
  Result, ok, err, failure, not_found, forbidden, ◌>>=◌, ◌>>◌, pure, or_throw, throw_if, gets,
}
use facilpay_api.Repository.{Repository}
use facilpay_api.Model.Entities.{PaymentLink}
use facilpay_api.Model.State.{Database, Tables}
use facilpay_api.PaymentLinks.Analytics.{PaymentLinkEventType, PaymentLinkEvent}

pub data Interval : Type 0 where
  day week : Interval

pub record GetAnalyticsDto : Type 0 where
  pub from : Option ℕ
  pub to : Option ℕ
  pub interval : Option Interval

-- A row of the query for the counts.
pub record EventCount : Type 0 where
  pub date : ℕ
  pub type : PaymentLinkEventType
  pub count : ℕ

pub record Counts : Type 0 where
  pub view : ℕ
  pub redeem : ℕ
  pub complete : ℕ

-- The rate is in hundredths.
pub record AnalyticsBucketDto : Type 0 where
  pub date : ℕ
  pub views : ℕ
  pub redemptions : ℕ
  pub completions : ℕ
  pub conversion_rate : ℕ
  pub revenue : ℕ

pub record Total : Type 0 where
  pub views : ℕ
  pub redemptions : ℕ
  pub completions : ℕ
  pub conversion_rate : ℕ
  pub revenue : ℕ

pub record AnalyticsResponseDto : Type 0 where
  pub link_id : ℕ
  pub total : Total
  pub buckets : List AnalyticsBucketDto

abbrev pub one_day : ℕ
one_day = 24 * 60 * 60 * 1000

abbrev pub date_of : ℕ → ℕ
date_of at = at / one_day

abbrev pub is_same_type : PaymentLinkEventType → PaymentLinkEventType → Bool
is_same_type PaymentLinkEventType.view PaymentLinkEventType.view = true
is_same_type PaymentLinkEventType.redeem PaymentLinkEventType.redeem = true
is_same_type PaymentLinkEventType.complete PaymentLinkEventType.complete = true
is_same_type _ _ = false

-- An event counts in the group of its date and type.
unfoldable pub count_event : PaymentLinkEvent → List EventCount → List EventCount
count_event e [] = record { date = date_of e.created_at; type = e.type; count = 1 } ∷ []
count_event e (row ∷ rows) =
    let others = count_event e rows in
    if row.date == date_of e.created_at && is_same_type row.type e.type
    then record row { count = row.count + 1 } ∷ rows
    else row ∷ others

-- `groupBy` the date, then the type; the order of the groups is left out.
unfoldable pub group_events : List PaymentLinkEvent → List EventCount
group_events [] = []
group_events (e ∷ events) = count_event e (group_events events)

unfoldable pub total_redemptions : List EventCount → ℕ
total_redemptions [] = 0
total_redemptions (e ∷ counts) =
    (if is_same_type e.type PaymentLinkEventType.redeem then e.count else 0)
    + total_redemptions counts

abbrev pub no_counts : Counts
no_counts = record { view = 0; redeem = 0; complete = 0 }

unfoldable pub add_count : EventCount → Counts → Counts
add_count e c = elim e.type [
  | PaymentLinkEventType.view ↦ record c { view = c.view + e.count }
  | PaymentLinkEventType.redeem ↦ record c { redeem = c.redeem + e.count }
  | PaymentLinkEventType.complete ↦ record c { complete = c.complete + e.count }
]

-- The loop that groups the rows by their date, in a map that is given.
unfoldable pub group_by_date : List EventCount → (ℕ → Option Counts) → ℕ → Option Counts
group_by_date [] dates = dates
group_by_date (e ∷ counts) dates = group_by_date counts (λ date.
    if e.date == date then some (add_count e (or_else (dates date) no_counts)) else dates date)

-- `event.date.split(' ')[0]` of the rows, which a text has and a Date has not: what the loop throws, before
-- anything is done with its map.
unfoldable pub split_dates : Bool → List EventCount → Result ⊤
split_dates is_text [] = ok tt
split_dates is_text (e ∷ counts) =
    let rest = split_dates is_text counts in if is_text then rest else err failure

-- `Math.round(rate * 100) / 100` of the completions per view.
unfoldable pub rounded_rate : ℕ → ℕ → ℕ
rounded_rate completions zero = 0
rounded_rate completions (suc n) = (200 * completions + suc n) / (2 * suc n)

abbrev pub step : Interval → ℕ
step Interval.day = one_day
step Interval.week = 7 * one_day

abbrev pub bucket : (ℕ → Option Counts) → ℕ → AnalyticsBucketDto
bucket dates date =
    let counts = or_else (dates date) no_counts in
    record {
      date = date;
      views = counts.view;
      redemptions = counts.redeem;
      completions = counts.complete;
      conversion_rate = rounded_rate counts.complete counts.view;
      revenue = 0;
    }

-- `while (current <= to)`, on fuel.
unfoldable pub buckets_from : ℕ → (ℕ → Option Counts) → Interval → ℕ → ℕ → List AnalyticsBucketDto
buckets_from zero dates interval to current = []
buckets_from (suc fuel) dates interval to current =
    let rest = buckets_from fuel dates interval to (current + step interval) in
    if leb current to then bucket dates (date_of current) ∷ rest else []

-- The loop makes no more rounds than the range has days that begin.
unfoldable pub build_buckets : ℕ → ℕ → Interval → List EventCount → List AnalyticsBucketDto
build_buckets from to interval counts =
    buckets_from (suc ((to - from) / one_day)) (group_by_date counts (λ date. none)) interval to
      from

-- The range that is asked for, thirty days up to now when nothing is said.
abbrev pub range_to : ℕ → GetAnalyticsDto → ℕ
range_to now dto = or_else dto.to now

abbrev pub range_from : ℕ → GetAnalyticsDto → ℕ
range_from now dto = or_else dto.from (range_to now dto - 30 * one_day)

abbrev pub in_range : ℕ → ℕ → ℕ → PaymentLinkEvent → Bool
in_range id from to e = e.payment_link_id == id && leb from e.created_at && leb e.created_at to

-- An amount that is zero is one that is null.
abbrev pub revenue_of : PaymentLink → ℕ
revenue_of link = or_else link.amount 0 * link.completions

abbrev pub interval_of : GetAnalyticsDto → Interval
interval_of dto = or_else dto.interval Interval.day

unfoldable pub analytics_of :
    ℕ → ℕ → GetAnalyticsDto → PaymentLink → List PaymentLinkEvent → AnalyticsResponseDto
analytics_of now id dto link events =
    let counts = group_events events in
    record {
      link_id = id;
      total = record {
        views = link.views;
        redemptions = total_redemptions counts;
        completions = link.completions;
        conversion_rate = rounded_rate link.completions link.views;
        revenue = revenue_of link;
      };
      buckets = build_buckets (range_from now dto) (range_to now dto) (interval_of dto) counts;
    }

-- Whether the driver of the database gives the date of a row as a text is an argument; node-postgres gives
-- a Date.
module _ {db : Database} (repo : Repository PaymentLinkEvent (λ r. r.id)) where
  unfoldable pub get_analytics :
      Bool
      → ℕ
      → ℕ
      → ℕ
      → GetAnalyticsDto
      → Tables db × repo.Table
      → Result AnalyticsResponseDto × (Tables db × repo.Table)
  get_analytics is_text now id merchant dto = do
    link ← λ t. or_throw (db.links.find_one id t.0.links) not_found t
    throw_if (not (link.merchant_id == merchant)) forbidden
    events ← gets (λ t. repo.find (in_range id (range_from now dto) (range_to now dto)) t.1)
    λ t. (split_dates is_text (group_events events), t)
    pure (analytics_of now id dto link events)
