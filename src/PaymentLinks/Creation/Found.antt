-- ===== src/PaymentLinks/Creation/Found.antt =====
-- A link that was created is found by its token.
use facilpay_api.Common.{
  ℕ, ◌≡◌, refl, inl, inr, Bool, true, false, Option, none, some, [], ◌==◌, In, All, first, arith,
  Bool-cases, List-cases,
}
use mathlib.Core.Path.{subst}
use facilpay_api.Common.Action.{Result-cases, ok}
use facilpay_api.Repository.{Repository, find_one-saved}
use facilpay_api.Model.Entities.{PaymentLink}
use facilpay_api.Model.State.{Database, Tables, State}
use facilpay_api.PaymentLinks.{is_past, viewed, find_link, find_by_token_or_slug}
use facilpay_api.PaymentLinks.Creation.{
  CreatePaymentLinkDto, Slugs, new_link, validate_slug, check_slug, create,
}

-- The first row that a query finds, when it can find only one.
first-find :
    (repo : Repository PaymentLink (λ r. r.id)) (p : PaymentLink → Bool) (t : repo.Table)
    (link : PaymentLink)
    → p link ≡ true
    → repo.find_one link.id t ≡ some link
    → ((a : PaymentLink) → p a ≡ true → repo.find_one a.id t ≡ some a → a ≡ link)
    → first (repo.find p t) ≡ some link
first-find repo p t link matches stored only =
    let there = repo.find_complete p t link matches stored in
    let sound = repo.find_sound p t in
    elim (List-cases (repo.find p t)) [
      | inl e ↦ absurd (subst (In link) e there)
      | inr (a, rest, e) ↦
          let h = subst (All (λ x. (p x ≡ true) × (repo.find_one x.id t ≡ some x))) e sound in
          let is_link = only a h.0.0 h.0.1 in ground (arith, e, is_link)
    ]

token_own :
    (new token : ℕ) (dto : CreatePaymentLinkDto) (merchant_id : ℕ)
    → ((new_link new token dto merchant_id).token == token) ≡ true
unfolding new_link
token_own new token dto merchant_id = ground arith

new_link-active :
    (new token : ℕ) (dto : CreatePaymentLinkDto) (merchant_id : ℕ)
    → (new_link new token dto merchant_id).is_active ≡ true
unfolding new_link
new_link-active new token dto merchant_id = refl

module _ {db : Database} where
  check_slug_state :
      (slugs : Slugs) (slug : Option ℕ) (s : State db) → (check_slug slugs slug s).1 ≡ s
  unfolding check_slug validate_slug
  check_slug_state slugs none s = refl
  check_slug_state slugs (some slug) s = ground arith

  -- A call that returned saved the new link.
  create_returned :
      (slugs : Slugs) (new token : ℕ) (dto : CreatePaymentLinkDto) (merchant_id : ℕ)
      (link : PaymentLink) (s : State db)
      → s.faults ≡ []
      → (create slugs new token dto merchant_id s).0 ≡ ok link
      → (new_link new token dto merchant_id ≡ link)
        × ((create slugs new token dto merchant_id s).1.tables.links
            ≡ db.links.save (new_link new token dto merchant_id) s.tables.links)
        × ((create slugs new token dto merchant_id s).1.faults ≡ [])
  unfolding create
  create_returned slugs new token dto merchant_id link s f h =
      let kept = check_slug_state slugs dto.slug s in
      elim (Result-cases (check_slug slugs dto.slug s).0) [
        | inl (u, e) ↦ (
          ground (arith, f, h, kept, e),
          ground (arith, f, h, kept, e),
          ground (arith, f, h, kept, e),
        )
        | inr (x, e) ↦ ground (arith, f, h, kept, e)
      ]

  -- Where no link had the token, it finds the link that was saved with it.
  find_link-saved :
      (token : ℕ) (link : PaymentLink) (before : db.links.Table) (t : Tables db)
      → t.links ≡ db.links.save link before
      → (link.token == token) ≡ true
      → ((k : ℕ) (r : PaymentLink)
          → db.links.find_one k before ≡ some r
          → (r.token == token) ≡ false)
      → find_link token t ≡ some link
  unfolding find_link
  find_link-saved token link before t saved own fresh =
      let stored : db.links.find_one link.id t.links ≡ some link =
        rw (saved) (find_one-saved db.links link before) in
      let only : (a : PaymentLink)
          → (a.token == token) ≡ true
          → db.links.find_one a.id t.links ≡ some a
          → a ≡ link =
        λ a has at. elim (Bool-cases (link.id == a.id)) [
          | inl same ↦ ground (arith, same, at, saved, db.links.find_one-save link a.id before)
          | inr other ↦
              let old : db.links.find_one a.id before ≡ some a =
                ground (arith, other, at, saved, db.links.find_one-save link a.id before) in
              let no = fresh a.id a old in ground (arith, no, has)
        ] in
      let found = first-find db.links (λ l. l.token == token) t.links link own stored only in
      ground (arith, found)

  -- When no write fails, a link that was created with a token that no link had is found by it, with one
  -- more view, until it expires.
  pub find_by_token_or_slug-create :
      (slugs : Slugs) (new token now : ℕ) (dto : CreatePaymentLinkDto) (merchant_id : ℕ)
      (link : PaymentLink) (s : State db)
      → s.faults ≡ []
      → ((k : ℕ) (r : PaymentLink)
          → db.links.find_one k s.tables.links ≡ some r
          → (r.token == token) ≡ false)
      → (create slugs new token dto merchant_id s).0 ≡ ok link
      → is_past now link.expires_at ≡ false
      → (find_by_token_or_slug now token (create slugs new token dto merchant_id s).1).0
        ≡ ok (viewed link)
  unfolding find_by_token_or_slug
  find_by_token_or_slug-create slugs new token now dto merchant_id link s f fresh h current =
      let t = (create slugs new token dto merchant_id s).1 in
      let (is_new, saved, works) = create_returned slugs new token dto merchant_id link s f h in
      let found =
        find_link-saved token link s.tables.links t.tables (rw (← is_new) saved)
          (rw (← is_new) (token_own new token dto merchant_id)) fresh in
      let active : link.is_active ≡ true =
        rw (← is_new) (new_link-active new token dto merchant_id) in
      ground (arith, found, active, current, works)
