-- ===== src/Checkout/Once.antt =====
-- A session is closed once: what is complete or expired stays as it is.
use facilpay_api.Common.{ℕ, ◌≡◌, none}
use facilpay_api.Repository.{Repository}
use facilpay_api.Checkout.{
  CheckoutSession, CreateCheckoutSessionDto, Outside, State, create, expire, complete_session,
  expire_stale_sessions,
}
use facilpay_api.Checkout.Changes.{
  IsClosed, Change-IsClosed, create-Change, expire-Change, complete_session-Change, sweep-Change,
}

module _ (repo : Repository CheckoutSession (λ r. r.public_id)) where
  -- Calls of the service that follow one another, with any failing writes and any answers of other
  -- services; the public identifier of a new session is new.
  pub data Step : State repo → State repo → Type 0 where
    creates :
        (new public_id now merchant_id : ℕ) (dto : CreateCheckoutSessionDto) (s : State repo)
        → repo.find_one public_id s.tables ≡ none
        → Step s (create repo new public_id now merchant_id dto s).1
    expires :
        (outside : Outside) (id merchant_id : ℕ) (s : State repo)
        → Step s (expire repo outside id merchant_id s).1
    completes :
        (outside : Outside) (public_id : ℕ) (s : State repo)
        → Step s (complete_session repo outside public_id s).1
    sweeps : (now : ℕ) (s : State repo) → Step s (expire_stale_sessions repo now s).1

  pub data Reaches : State repo → State repo → Type 0 where
    here : (s : State repo) → Reaches s s
    then_step : (s t u : State repo) → Reaches s t → Step t u → Reaches s u

  Step-IsClosed :
      (public_id : ℕ) (session : CheckoutSession) (s t : State repo)
      → Step s t
      → IsClosed repo public_id session s
      → IsClosed repo public_id session t
  Step-IsClosed public_id session s t (creates new k now merchant_id dto s' absent) h =
      Change-IsClosed repo public_id session s t
        (create-Change repo new k now merchant_id dto s absent) h
  Step-IsClosed public_id session s t (expires outside id merchant_id s') h =
      Change-IsClosed repo public_id session s t (expire-Change repo outside id merchant_id s) h
  Step-IsClosed public_id session s t (completes outside k s') h =
      Change-IsClosed repo public_id session s t (complete_session-Change repo outside k s) h
  Step-IsClosed public_id session s t (sweeps now s') h =
      Change-IsClosed repo public_id session s t (sweep-Change repo now s) h

  -- A session that is complete or expired stays exactly as it is, whatever calls and sweeps follow
  -- one another, whichever writes fail and whatever other services answer.
  pub Reaches-IsClosed :
      (public_id : ℕ) (session : CheckoutSession) (s t : State repo)
      → Reaches s t
      → IsClosed repo public_id session s
      → IsClosed repo public_id session t
  Reaches-IsClosed public_id session s t (here s') h = h
  Reaches-IsClosed public_id session s t (then_step s' u t' path step) h =
      Step-IsClosed public_id session u t step (Reaches-IsClosed public_id session s u path h)
