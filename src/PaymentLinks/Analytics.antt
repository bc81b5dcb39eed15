-- ===== src/PaymentLinks/Analytics.antt =====
-- payment-links.service.ts: recordView, recordRedeem and recordComplete, with payment-link-event.entity.ts.
-- The hash of an address is a parameter; the time of a row is that of its insertion.
pub mod Buckets
pub mod Debounce
use facilpay_api.Common.{ℕ, ◌+◌, Bool, true, false, ◌&&◌, Option, none, some, leb, ◌==◌, first, ⊤}
use facilpay_api.Common.Action.{Result, ok, err}
use facilpay_api.Common.Store.{Store, write}
use facilpay_api.Repository.{Repository}
use facilpay_api.Model.State.{Database, State as Service}
use facilpay_api.Payments.Lifecycle.Links.{increment_completions}

pub data PaymentLinkEventType : Type 0 where
  view redeem complete : PaymentLinkEventType

abbrev pub is_view : PaymentLinkEventType → Bool
is_view PaymentLinkEventType.view = true
is_view _ = false

pub record PaymentLinkEvent : Type 0 where
  pub id : ℕ
  pub payment_link_id : ℕ
  pub type : PaymentLinkEventType
  pub ip_hash : ℕ
  pub user_agent : Option ℕ
  pub created_at : ℕ

-- One hour.
abbrev pub view_debounce_window_ms : ℕ
view_debounce_window_ms = 3600000

-- A view of the link from the address, in the window that ends now.
abbrev pub is_recent_view : ℕ → ℕ → ℕ → PaymentLinkEvent → Bool
is_recent_view link ip_hash now e =
    e.payment_link_id == link
    && is_view e.type
    && e.ip_hash == ip_hash
    && leb now (e.created_at + view_debounce_window_ms)

module _ (repo : Repository PaymentLinkEvent (λ r. r.id)) (hash_ip : ℕ → ℕ) where
  abbrev pub State : Type 0
  State = Store repo.Table ⊤

  abbrev pub save_event : PaymentLinkEventType → ℕ → ℕ → ℕ → ℕ → Option ℕ → State → Result ⊤ × State
  save_event type new now link ip_hash user_agent = write (
      repo.save (record {
        id = new;
        payment_link_id = link;
        type = type;
        ip_hash = ip_hash;
        user_agent = user_agent;
        created_at = now;
      }))

  unfoldable pub record_view : ℕ → ℕ → ℕ → Option ℕ → Option ℕ → State → Result ⊤ × State
  record_view new now link none user_agent s = (ok tt, s)
  record_view new now link (some ip) user_agent s =
      elim (first (repo.find (is_recent_view link (hash_ip ip) now) s.tables)) [
        | some existing_view ↦ (ok tt, s)
        | none ↦ save_event PaymentLinkEventType.view new now link (hash_ip ip) user_agent s
      ]

  -- `unknown` is the number of that text.
  unfoldable pub record_redeem : ℕ → ℕ → ℕ → ℕ → Option ℕ → Option ℕ → State → Result ⊤ × State
  record_redeem unknown new now link ip user_agent =
      save_event PaymentLinkEventType.redeem new now link
        (elim ip [ none ↦ unknown | some i ↦ hash_ip i ]) user_agent

  -- `system` is the number of that text. The table of the events is beside those of the payments, and
  -- the writes to each fail as its own list says.
  unfoldable pub record_complete :
      {db : Database} → ℕ → ℕ → ℕ → ℕ → State × Service db → Result ⊤ × (State × Service db)
  record_complete system new now link (events, s) =
      let (saved, events') =
        save_event PaymentLinkEventType.complete new now link system none events in
      let (counted, s') = increment_completions link s in
      elim saved [ ok u ↦ (counted, (events', s')) | err e ↦ (err e, (events', s)) ]
