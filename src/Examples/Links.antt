-- ===== src/Examples/Links.antt =====
-- The theorems on the creation of payment links and on their events, at empty tables.
use facilpay_api.Common.{
  ℕ, ◌+◌, ◌*◌, ◌%◌, ◌≤◌, ◌≡◌, ◌≢◌, ◌⊎◌, refl, List, none, some, [], ◌∷◌, false, true, arith,
}
use facilpay_api.Common.Action.{ok, err, failure}
use facilpay_api.Model.Entities.{PaymentLink}
use facilpay_api.Model.State.{State, Tables}
use facilpay_api.Model.Tables.{lists, empty_tables}
use facilpay_api.PaymentLinks.{viewed, find_by_token_or_slug}
use facilpay_api.PaymentLinks.Creation.{
  CreatePaymentLinkDto, Slugs, has_slug_syntax, new_link, validate_slug, check_slug, create,
}
use facilpay_api.Repository.{Repository}
use facilpay_api.Repository.Rows.{rows}
use facilpay_api.PaymentLinks.Analytics.{
  PaymentLinkEventType, PaymentLinkEvent, State as Events, record_view,
}
use facilpay_api.PaymentLinks.Analytics.Buckets.{
  GetAnalyticsDto, AnalyticsResponseDto, analytics_of, group_events, count_event, total_redemptions,
  build_buckets, buckets_from, group_by_date, add_count, one_day, range_from, range_to, in_range,
  get_analytics,
}
use facilpay_api.PaymentLinks.Analytics.Buckets.Sums.{redeems, bucket_redemptions}
use facilpay_api.PaymentLinks.Analytics.Buckets.Redemptions.{get_analytics-redemptions}
use facilpay_api.PaymentLinks.Analytics.Debounce.{IsApart, Reaches, Reaches-AllApart}
use facilpay_api.PaymentLinks.Creation.Found.{find_by_token_or_slug-create}

-- Slug 7 is 'a-1', slug 8 is reserved.
abbrev slugs : Slugs
slugs = record { codes = λ slug. 97 ∷ 45 ∷ 49 ∷ []; reserved = 8 ∷ [] }

abbrev dto : CreatePaymentLinkDto
dto = record {
  amount = some 500;
  flexible_amount = none;
  min_amount = none;
  currency = 1;
  description = none;
  expires_at = some 100;
  max_completions = some 1;
  slug = some 7;
}

abbrev empty : State lists
empty = record { tables = empty_tables; outbox = []; faults = [] }

abbrev link : PaymentLink
link = record {
  id = 1;
  token = 40;
  slug = some 7;
  amount = some 500;
  flexible_amount = false;
  min_amount = none;
  currency = 1;
  description = none;
  expires_at = some 100;
  is_active = true;
  views = 0;
  completions = 0;
  max_completions = none;
  merchant_id = 3;
}

created : (create slugs 1 40 dto 3 empty).0 ≡ ok link
unfolding create check_slug validate_slug has_slug_syntax new_link
created = refl

find_by_token_or_slug-create_example :
    (find_by_token_or_slug 60 40 (create slugs 1 40 dto 3 empty).1).0 ≡ ok (viewed link)
find_by_token_or_slug-create_example =
    find_by_token_or_slug-create slugs 1 40 60 dto 3 link empty refl
      (λ k r found. ground (arith, found)) created refl

abbrev events : Repository PaymentLinkEvent (λ r. r.id)
events = rows (λ r. r.id)

abbrev hash_ip : ℕ → ℕ
hash_ip ip = ip + 1

abbrev no_events : Events events hash_ip
no_events = record { tables = []; outbox = []; faults = [] }

-- The second view is a minute after the first, the third one two hours.
abbrev three_views : Events events hash_ip
three_views =
    (record_view events hash_ip 3 7200000 1 (some 9) none
      (record_view events hash_ip 2 60000 1 (some 9) none
        (record_view events hash_ip 1 0 1 (some 9) none no_events).1).1).1

abbrev view : ℕ → ℕ → PaymentLinkEvent
view id at = record {
  id = id;
  payment_link_id = 1;
  type = PaymentLinkEventType.view;
  ip_hash = 10;
  user_agent = none;
  created_at = at;
}

first_view : events.find_one 1 three_views.tables ≡ some (view 1 0)
unfolding record_view
first_view = refl

third_view : events.find_one 3 three_views.tables ≡ some (view 3 7200000)
unfolding record_view
third_view = refl

Reaches-AllApart_example : IsApart (view 1 0) (view 3 7200000)
Reaches-AllApart_example =
    Reaches-AllApart events hash_ip {s = no_events} {t = three_views}
      (λ j k q r at_j at_k different views. ground (arith, at_j))
      (Reaches.views 3 7200000 1 (some 9) none
        (Reaches.views 2 60000 1 (some 9) none (Reaches.views 1 0 1 (some 9) none Reaches.here)))
      1 3 (view 1 0) (view 3 7200000) first_view third_view (λ e. ground (arith, e))
      (refl, refl, refl, refl)

-- Two redemptions, on the 20th and the 39th day, and one that is too old.
abbrev redemptions : List PaymentLinkEvent
redemptions =
    record (view 4 (20 * one_day)) { type = PaymentLinkEventType.redeem }
    ∷ record (view 5 (39 * one_day + 5)) { type = PaymentLinkEventType.redeem }
    ∷ record (view 6 (9 * one_day)) { type = PaymentLinkEventType.redeem }
    ∷ []

abbrev visited : Tables lists × List PaymentLinkEvent
visited = (record empty_tables { links = link ∷ [] }, redemptions)

abbrev last_month : GetAnalyticsDto
last_month = record { from = none; to = none; interval = none }

abbrev now : ℕ
now = 40 * one_day

two_redeems :
    redeems
      (events.find (in_range 1 (range_from now last_month) (range_to now last_month)) visited.1)
    ≡ 2
unfolding redeems
two_redeems = refl

starts_before : range_from now last_month ≤ range_to now last_month
starts_before = omega arith

same_clock : range_from now last_month % one_day ≤ range_to now last_month % one_day
same_clock = omega arith

get_analytics-redemptions_example :
    let found =
      events.find (in_range 1 (range_from now last_month) (range_to now last_month)) visited.1 in
    let answer = (get_analytics {db = lists} events false now 1 3 last_month visited).0 in
    ((false ≡ false) × (found ≢ []) × (answer ≡ err failure))
    ⊎ (((false ≡ true) ⊎ (found ≡ []))
        × ((a : AnalyticsResponseDto) × (answer ≡ ok a)
            × (a.total.redemptions ≡ redeems found)
            × (bucket_redemptions a.buckets ≡ a.total.redemptions)))
get_analytics-redemptions_example =
    get_analytics-redemptions {db = lists} events false now 1 3 last_month link visited refl refl
      refl starts_before same_clock

-- From 18:00 to 9:00 of the next day: a redemption at 5:00 is in the total but in no bucket.
abbrev overnight : GetAnalyticsDto
overnight = record {
  from = some (20 * one_day + 64800000);
  to = some (21 * one_day + 32400000);
  interval = none;
}

abbrev early : List PaymentLinkEvent
early = record (view 4 (21 * one_day + 18000000)) { type = PaymentLinkEventType.redeem } ∷ []

early_in_total : (analytics_of now 1 overnight link early).total.redemptions ≡ 1
unfolding analytics_of group_events count_event total_redemptions
early_in_total = refl

early_in_no_bucket : bucket_redemptions (analytics_of now 1 overnight link early).buckets ≡ 0
unfolding analytics_of group_events count_event build_buckets buckets_from group_by_date add_count
    bucket_redemptions
early_in_no_bucket = refl
