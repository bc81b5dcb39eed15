-- ===== src/Payments/Stream/Silent.antt =====
-- A stream that was given up stays silent.
use facilpay_api.Common.{
  ℕ, ◌≡◌, refl, ◌∙◌, true, false, not, inl, inr, List, [], ◌∷◌, ◌++◌, ◌==◌, ==_iff, filter,
  includes, arith, Bool-cases,
}
use facilpay_api.Model.Entities.{Payment}
use facilpay_api.Payments.Stream.{
  is_terminal, Event, status_updated, completed, Streams, subscribe, emit_status, is_about,
  events_of,
}

includes-delete : (id : ℕ) (l : List ℕ) → includes id (filter (λ k. not (k == id)) l) ≡ false
includes-delete id [] = refl
includes-delete id (k ∷ l) = ground (arith, includes-delete id l)

delete_other :
    (id j : ℕ) (l : List ℕ)
    → includes id l ≡ false
    → includes id (filter (λ k. not (k == j)) l) ≡ false
delete_other id j [] h = refl
delete_other id j (k ∷ l) h = ground (arith, h, delete_other id j l)

append_other :
    (id j : ℕ) (l : List ℕ)
    → includes id l ≡ false
    → (j == id) ≡ false
    → includes id (l ++ j ∷ []) ≡ false
append_other id j [] h e = ground (arith, e)
append_other id j (k ∷ l) h e = ground (arith, h, append_other id j l)

events-append :
    (id : ℕ) (l : List Event) (e : Event)
    → is_about id e ≡ false
    → filter (is_about id) (l ++ e ∷ []) ≡ filter (is_about id) l
events-append id [] e h = ground (arith, h)
events-append id (x ∷ l) e h = ground (arith, events-append id l e h)

-- A terminal change of a payment takes its subject away.
emit_status_terminal :
    (payment : Payment) (s : Streams)
    → is_terminal payment.status ≡ true
    → includes payment.id (emit_status payment s).subjects ≡ false
unfolding emit_status
emit_status_terminal payment s h = ground (arith, h, includes-delete payment.id s.subjects)

-- Changes of payments and subscriptions, but none to the payment `id`.
pub data Reaches (id : ℕ) (s : Streams) : Streams → Type 0 where
  here : Reaches id s s
  emits : (payment : Payment) {t : Streams} → Reaches id s t → Reaches id s (emit_status payment t)
  subscribes :
      (other : ℕ) {t : Streams}
      → (other == id) ≡ false
      → Reaches id s t
      → Reaches id s (subscribe other t)

record IsSilent (id : ℕ) (s t : Streams) : Type 0 where
  absent : includes id t.subjects ≡ false
  same : events_of id t ≡ events_of id s

emit_status-IsSilent :
    (id : ℕ) (payment : Payment) (s t : Streams)
    → IsSilent id s t
    → IsSilent id s (emit_status payment t)
unfolding emit_status
emit_status-IsSilent id payment s t h = elim (Bool-cases (includes payment.id t.subjects)) [
  | inr gone ↦ rw (gone, emit_status) h
  | inl there ↦ elim (Bool-cases (payment.id == id)) [
    | inl own ↦
        let key = (==_iff payment.id id).0 own in
        let absent : includes payment.id t.subjects ≡ false = rw (key) h.absent in
        ground (arith, there, absent)
    | inr other ↦
        let update = status_updated payment.id payment.status payment.updated_at in
        let updated = events-append id t.events update other in
        elim (Bool-cases (is_terminal payment.status)) [
          | inl terminal ↦
              rw (there, terminal, emit_status)
                (record {
                  absent = delete_other id payment.id t.subjects h.absent;
                  same =
                      events-append id (t.events ++ update ∷ []) (completed payment.id) other
                      ∙ updated
                      ∙ h.same;
                })
          | inr going ↦
              rw (there, going, emit_status) (record { absent = h.absent; same = updated ∙ h.same })
        ]
  ]
]

subscribe-IsSilent :
    (id other : ℕ) (s t : Streams)
    → (other == id) ≡ false
    → IsSilent id s t
    → IsSilent id s (subscribe other t)
unfolding subscribe
subscribe-IsSilent id other s t e h = elim (Bool-cases (includes other t.subjects)) [
  | inl there ↦ rw (there, subscribe) h
  | inr new ↦
      rw (new, subscribe)
        (record { absent = append_other id other t.subjects h.absent e; same = h.same })
]

Reaches-IsSilent :
    (id : ℕ) (s : Streams) {t : Streams}
    → includes id s.subjects ≡ false
    → Reaches id s t
    → IsSilent id s t
Reaches-IsSilent id s absent here = record { absent = absent; same = refl }
Reaches-IsSilent id s absent (emits payment {t = t} r) =
    emit_status-IsSilent id payment s t (Reaches-IsSilent id s absent r)
Reaches-IsSilent id s absent (subscribes other {t = t} e r) =
    subscribe-IsSilent id other s t e (Reaches-IsSilent id s absent r)

-- After a payment came to a terminal state, its stream is given nothing more, whatever payments change
-- and whoever subscribes to other ones, until someone subscribes to it again.
emit_status_last :
    (payment : Payment) (s t : Streams)
    → is_terminal payment.status ≡ true
    → Reaches payment.id (emit_status payment s) t
    → events_of payment.id t ≡ events_of payment.id (emit_status payment s)
emit_status_last payment s t terminal r =
    (Reaches-IsSilent payment.id (emit_status payment s) (emit_status_terminal payment s terminal)
      r).same
