-- ===== src/Disputes/Transitions.antt =====
-- The state machine of a dispute: `validateStatusTransition` of modules/payments/disputes.service.ts.
use facilpay_api.Common.{ℕ, ◌≡◌, ◌<◌, Bool, true, false, List, [], ◌∷◌, ◌||◌, arith}
use facilpay_api.Model.Entities.{DisputeStatus}

-- `===` on the enum
abbrev pub is_dispute_status : DisputeStatus → DisputeStatus → Bool
is_dispute_status DisputeStatus.open_ DisputeStatus.open_ = true
is_dispute_status DisputeStatus.under_review DisputeStatus.under_review = true
is_dispute_status DisputeStatus.resolved DisputeStatus.resolved = true
is_dispute_status DisputeStatus.closed DisputeStatus.closed = true
is_dispute_status _ _ = false

-- `[RESOLVED, CLOSED].includes(status)`
abbrev pub is_terminal_dispute : DisputeStatus → Bool
is_terminal_dispute DisputeStatus.resolved = true
is_terminal_dispute DisputeStatus.closed = true
is_terminal_dispute _ = false

-- `validTransitions`
pub allowed_transitions : DisputeStatus → List DisputeStatus
allowed_transitions DisputeStatus.open_ = DisputeStatus.under_review ∷ DisputeStatus.closed ∷ []
allowed_transitions DisputeStatus.under_review = DisputeStatus.resolved ∷ DisputeStatus.closed ∷ []
allowed_transitions DisputeStatus.resolved = DisputeStatus.closed ∷ []
allowed_transitions DisputeStatus.closed = []

abbrev pub includes_status : DisputeStatus → List DisputeStatus → Bool
includes_status s [] = false
includes_status s (t ∷ ts) = is_dispute_status t s || includes_status s ts

unfoldable pub can_move : DisputeStatus → DisputeStatus → Bool
unfolding allowed_transitions
can_move current new = includes_status new (allowed_transitions current)

-- How far a dispute has come.
abbrev pub stage : DisputeStatus → ℕ
stage DisputeStatus.open_ = 0
stage DisputeStatus.under_review = 1
stage DisputeStatus.resolved = 2
stage DisputeStatus.closed = 3

pub can_move_forward : (s t : DisputeStatus) → can_move s t ≡ true → stage s < stage t
unfolding can_move
can_move_forward s t h = ground arith
