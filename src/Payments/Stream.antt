-- ===== src/Payments/Stream.antt =====
-- payment-sse.service.ts: the streams of status changes. A payment that someone has subscribed to has a
-- subject, which is given up when the payment comes to a terminal state.
pub mod Silent
use facilpay_api.Common.{
  ℕ, ◌≡◌, refl, ◌∙◌, ap, Bool, true, false, not, inl, inr, List, [], ◌∷◌, ◌++◌, if◌then◌else◌, ◌==◌,
  filter, includes, arith, Bool-cases,
}
use facilpay_api.Model.Entities.{PaymentStatus, Payment}

unfoldable pub is_terminal : PaymentStatus → Bool
is_terminal PaymentStatus.completed = true
is_terminal PaymentStatus.failed = true
is_terminal PaymentStatus.cancelled = true
is_terminal PaymentStatus.refunded = true
is_terminal PaymentStatus.partially_refunded = true
is_terminal PaymentStatus.pending = false
is_terminal PaymentStatus.expired = false
is_terminal PaymentStatus.partially_completed = false
is_terminal PaymentStatus.overdue = false

pub data Event : Type 0 where
  -- 'payment.status_updated': the payment, its status and the time of its change
  status_updated : ℕ → PaymentStatus → ℕ → Event
  completed : ℕ → Event

-- The payments that have a subject, and what the subjects were given, in order.
pub record Streams : Type 0 where
  pub subjects : List ℕ
  pub events : List Event

unfoldable pub subscribe : ℕ → Streams → Streams
subscribe id s = if includes id s.subjects then s else record s { subjects = s.subjects ++ id ∷ [] }

unfoldable pub emit_status : Payment → Streams → Streams
emit_status payment s =
    let updated = s.events ++ status_updated payment.id payment.status payment.updated_at ∷ [] in
    if includes payment.id s.subjects
    then (if is_terminal payment.status
        then record {
          subjects = filter (λ id. not (id == payment.id)) s.subjects;
          events = updated ++ completed payment.id ∷ [];
        }
        else record s { events = updated })
    else s

-- The events of a payment.
abbrev pub is_about : ℕ → Event → Bool
is_about id (status_updated k status at) = k == id
is_about id (completed k) = k == id

abbrev pub events_of : ℕ → Streams → List Event
events_of id s = filter (is_about id) s.events
