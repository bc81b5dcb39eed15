-- ===== src/Disputes/Laws.antt =====
-- Disputes under `update`: their life and its timestamps.
use facilpay_api.Common.{
  ℕ, ◌≡◌, ◌<◌, refl, ◌⊎◌, inl, inr, true, false, Option, none, some, [], ◌==◌, if◌then◌else◌, arith,
  or_other, is_some, Option-cases, ◌∙◌, ap, sym,
}
use facilpay_api.Common.Action.{Error, Result-cases, ok, err, conflict}
use facilpay_api.Model.Entities.{Dispute, DisputeStatus}
use facilpay_api.Model.State.{Database, State}
use facilpay_api.Disputes.{UpdateDisputeDto, moved, annotated, update, apply_update, move}
use facilpay_api.Disputes.Transitions.{stage, can_move, can_move_forward}

-- The timestamps that the status calls for are there.
pub record IsStamped (d : Dispute) : Type 0 where
  pub when_resolved : d.status ≡ DisputeStatus.resolved → is_some d.resolved_at ≡ true
  pub when_closed : d.status ≡ DisputeStatus.closed → is_some d.closed_at ≡ true

moved-IsStamped :
    (now : ℕ) (by : Option ℕ) (t : DisputeStatus) (d : Dispute) → IsStamped (moved now by t d)
unfolding moved
moved-IsStamped now by DisputeStatus.resolved d = ground arith
moved-IsStamped now by t d = ground arith

annotated-IsStamped :
    (dto : UpdateDisputeDto) (d : Dispute) → IsStamped d → IsStamped (annotated dto d)
unfolding annotated
annotated-IsStamped dto d h = record {
  when_resolved = h.when_resolved;
  when_closed = h.when_closed;
}

-- The dispute that an update makes of one, where the transition is allowed.
abbrev pub updated : ℕ → UpdateDisputeDto → Option ℕ → Dispute → Dispute
updated now dto by d =
    annotated dto
      (elim dto.status [ none ↦ d | some t ↦ moved now (or_other by dto.resolved_by) t d ])

abbrev pub IsAllowed : Option DisputeStatus → Dispute → Type 0
IsAllowed none d = Unit
IsAllowed (some t) d = can_move d.status t ≡ true

moved-status :
    (now : ℕ) (by : Option ℕ) (t : DisputeStatus) (d : Dispute) → (moved now by t d).status ≡ t
unfolding moved
moved-status now by DisputeStatus.resolved d = refl
moved-status now by t d = refl

moved-id :
    (now : ℕ) (by : Option ℕ) (t : DisputeStatus) (d : Dispute) → (moved now by t d).id ≡ d.id
unfolding moved
moved-id now by DisputeStatus.resolved d = refl
moved-id now by t d = refl

updated-id :
    (now : ℕ) (dto : UpdateDisputeDto) (by : Option ℕ) (d : Dispute)
    → (updated now dto by d).id ≡ d.id
unfolding annotated
updated-id now dto by d = elim (Option-cases dto.status) [
  | inl e ↦ ground (arith, e)
  | inr (t, e) ↦ ground (arith, e, moved-id now (or_other by dto.resolved_by) t d)
]

-- The dispute that an update makes, where the move that it asks for is allowed, is at a later
-- stage than before, or has its old status when no move is asked for.
updated-stage :
    (now : ℕ) (dto : UpdateDisputeDto) (by : Option ℕ) (d : Dispute)
    → IsAllowed dto.status d
    → ((dto.status ≡ none) × ((updated now dto by d).status ≡ d.status))
      ⊎ ((dto.status ≡ some (updated now dto by d).status)
          × (stage d.status < stage (updated now dto by d).status))
unfolding annotated
updated-stage now dto by d h = elim (Option-cases dto.status) [
  | inl e ↦ inl (e, ground (arith, e))
  | inr (t, e) ↦
      let same : (updated now dto by d).status ≡ t =
        ground (arith, e, moved-status now (or_other by dto.resolved_by) t d) in
      inr (e ∙ ap some (sym same), rw same (can_move_forward d.status t (rw e at h)))
]

updated-IsStamped :
    (now : ℕ) (dto : UpdateDisputeDto) (by : Option ℕ) (d : Dispute)
    → IsStamped d
    → IsStamped (updated now dto by d)
unfolding annotated
updated-IsStamped now dto by d h = elim (Option-cases dto.status) [
  | inl e ↦ rw e (annotated-IsStamped dto d h)
  | inr (t, e) ↦
      rw e (annotated-IsStamped dto _ (moved-IsStamped now (or_other by dto.resolved_by) t d))
]

abbrev pub AllStamped : {db : Database} → State db → Type 0
AllStamped {db} s =
    (k : ℕ) (d : Dispute) → db.disputes.find_one k s.tables.disputes ≡ some d → IsStamped d

module _ {db : Database} where
  module _ (now id : ℕ) (dto : UpdateDisputeDto) (by : Option ℕ) (s : State db) where
    -- An update that throws changes no table.
    pub update-atomic :
        {e : Error}
        → (update now id dto by s).0 ≡ err e
        → (update now id dto by s).1.tables ≡ s.tables
    unfolding update apply_update move
    update-atomic h = ground arith

    module _ {d : Dispute} (found : db.disputes.find_one id s.tables.disputes ≡ some d) where
      -- A move that the table of transitions does not allow is a conflict: nothing is written or sent.
      pub update_forbidden :
          (t : DisputeStatus)
          → dto.status ≡ some t
          → can_move d.status t ≡ false
          → update now id dto by s ≡ (err conflict, s)
      unfolding update apply_update move
      update_forbidden t e h = ground arith

      update_result :
          IsAllowed dto.status d
          → s.faults ≡ []
          → (update now id dto by s).0 ≡ ok (updated now dto by d)
      unfolding update apply_update move
      update_result h f = elim (Option-cases dto.status) [
        | inl e ↦ ground (arith, e)
        | inr (t, e) ↦
            let allowed : can_move d.status t ≡ true = rw e at h in ground (arith, e, allowed)
      ]

      update_writes :
          IsAllowed dto.status d
          → s.faults ≡ []
          → (update now id dto by s).1.tables.disputes
            ≡ db.disputes.save (updated now dto by d) s.tables.disputes
      unfolding update apply_update move
      update_writes h f = elim (Option-cases dto.status) [
        | inl e ↦ ground (arith, e)
        | inr (t, e) ↦
            let allowed : can_move d.status t ≡ true = rw e at h in ground (arith, e, allowed)
      ]

      -- When no write fails, an update of a known dispute that asks for an allowed move, or for
      -- none, is saved and returned, and no other dispute changes.
      pub update_allowed :
          IsAllowed dto.status d
          → s.faults ≡ []
          → ((update now id dto by s).0 ≡ ok (updated now dto by d))
            × ((k : ℕ)
                → db.disputes.find_one k (update now id dto by s).1.tables.disputes ≡ (
                    if id == k
                    then some (updated now dto by d)
                    else db.disputes.find_one k s.tables.disputes))
      update_allowed h f = (
        update_result h f,
        λ k. ground (
          arith,
          update_writes h f,
          updated-id now dto by d,
          db.disputes.key-find_one id s.tables.disputes d found,
          db.disputes.find_one-save (updated now dto by d) k s.tables.disputes,
        ),
      )

    -- An update leaves the disputes alone, or saves the one that it found, after an allowed move.
    update_cases :
        ((update now id dto by s).1.tables.disputes ≡ s.tables.disputes)
        ⊎ ((d : Dispute) × (db.disputes.find_one id s.tables.disputes ≡ some d)
            × ((update now id dto by s).1.tables.disputes
                ≡ db.disputes.save (updated now dto by d) s.tables.disputes))
    unfolding update apply_update move
    update_cases = elim (Option-cases (db.disputes.find_one id s.tables.disputes)) [
      | inl e ↦ inl (ground (arith, e))
      | inr (d, found) ↦ elim (Result-cases (update now id dto by s).0) [
        | inr (e, undone) ↦ inl (ground (arith, update-atomic undone))
        | inl (x, done) ↦ elim (Option-cases dto.status) [
          | inl e ↦ inr (d, found, ground (arith, e))
          | inr (t, e) ↦ inr (d, found, ground (arith, e))
        ]
      ]
    ]

    -- If each resolved dispute has the time of its resolution and each closed one the time of its
    -- closing, that holds after any update, whichever write fails.
    pub update-AllStamped : AllStamped s → AllStamped (update now id dto by s).1
    update-AllStamped h k d e = elim update_cases [
      | inl same ↦ h k d (rw same at e)
      | inr (old, found, saved) ↦ ground (
        arith,
        h k d,
        updated-IsStamped now dto by old (h id old found),
        db.disputes.find_one-save (updated now dto by old) k s.tables.disputes,
      )
    ]
