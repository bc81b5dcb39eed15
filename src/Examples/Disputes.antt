-- ===== src/Examples/Disputes.antt =====
-- Disputes at concrete tables.
use facilpay_api.Common.{◌≡◌, refl, true, none, some, [], arith}
use facilpay_api.Model.Entities.{Dispute, DisputeStatus}
use facilpay_api.Disputes.{CreateDisputeDto, UpdateDisputeDto, update}
use facilpay_api.Disputes.Transitions.{can_move}
use facilpay_api.Disputes.Laws.{update-AllStamped, AllStamped, IsStamped}
use facilpay_api.Examples.Data.{dispute, disputed}

abbrev to : DisputeStatus → UpdateDisputeDto
to status = record { status = some status; resolution_notes = none; resolved_by = none }

abbrev complaint : CreateDisputeDto
complaint = record { reason = 1; description = some 2; opened_by = none }

abbrev reviewed : Dispute
reviewed = dispute DisputeStatus.under_review

can_resolve : can_move DisputeStatus.under_review DisputeStatus.resolved ≡ true
unfolding can_move
can_resolve = refl

under_review-IsStamped : IsStamped reviewed
under_review-IsStamped = record {
  when_resolved = λ h. ground arith;
  when_closed = λ h. ground arith;
}

disputed-AllStamped : AllStamped (disputed DisputeStatus.under_review [])
disputed-AllStamped k d e = ground (arith, under_review-IsStamped)

update-AllStamped_example :
    AllStamped
      (update 80 4 (to DisputeStatus.resolved) none (disputed DisputeStatus.under_review [])).1
update-AllStamped_example =
    update-AllStamped 80 4 (to DisputeStatus.resolved) none (disputed DisputeStatus.under_review [])
      disputed-AllStamped
