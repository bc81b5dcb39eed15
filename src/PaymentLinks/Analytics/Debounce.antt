-- ===== src/PaymentLinks/Analytics/Debounce.antt =====
-- Views of one address are more than an hour apart.
use facilpay_api.Common.{
  ℕ, ◌+◌, ◌<◌, ◌≡◌, ◌≢◌, sym, ap, ◌∙◌, ◌⊎◌, inl, inr, true, Option, none, some, ◌==◌, first, arith,
  Bool-cases, Option-cases, ==_iff, leb,
}
use mathlib.Core.Path.{subst}
use facilpay_api.Common.Lists.{In-first}
use facilpay_api.Repository.{Repository}
use facilpay_api.Common.Store.{write}
use facilpay_api.PaymentLinks.Analytics.{
  PaymentLinkEventType, is_view, PaymentLinkEvent, view_debounce_window_ms, is_recent_view, State,
  record_view, record_redeem,
}

-- One is more than the window after the other.
abbrev pub IsApart : PaymentLinkEvent → PaymentLinkEvent → Type 0
IsApart q r =
    (q.created_at + view_debounce_window_ms < r.created_at)
    ⊎ (r.created_at + view_debounce_window_ms < q.created_at)

-- Two views of a link from the same address.
abbrev pub AreViews : PaymentLinkEvent → PaymentLinkEvent → Type 0
AreViews q r =
    (is_view q.type ≡ true)
    × (is_view r.type ≡ true)
    × (q.payment_link_id ≡ r.payment_link_id)
    × (q.ip_hash ≡ r.ip_hash)

module _ (repo : Repository PaymentLinkEvent (λ r. r.id)) (hash_ip : ℕ → ℕ) where
  -- Different views of a link from the same address are apart.
  abbrev pub AllApart : repo.Table → Type 0
  AllApart t =
      (j k : ℕ) (q r : PaymentLinkEvent)
      → repo.find_one j t ≡ some q
      → repo.find_one k t ≡ some r
      → j ≢ k
      → AreViews q r
      → IsApart q r

  -- Each view of the same link and address is before the row.
  abbrev IsLast : PaymentLinkEvent → repo.Table → Type 0
  IsLast row t =
      (k : ℕ) (r : PaymentLinkEvent)
      → repo.find_one k t ≡ some r
      → AreViews row r
      → r.created_at + view_debounce_window_ms < row.created_at

  find-IsLast :
      (row : PaymentLinkEvent) (t : repo.Table)
      → first (repo.find (is_recent_view row.payment_link_id row.ip_hash row.created_at) t) ≡ none
      → IsLast row t
  find-IsLast row t absent k r found views =
      let key = repo.key-find_one k t r found in
      let own = ap (λ i. repo.find_one i t) key ∙ found in
      let recent = is_recent_view row.payment_link_id row.ip_hash row.created_at in
      elim (Bool-cases (leb row.created_at (r.created_at + view_debounce_window_ms))) [
        | inr late ↦ ground (arith, late)
        | inl soon ↦
            let matches : recent r ≡ true =
              ground (arith, soon, views.1, sym views.2, sym views.3) in
            absurd
              (In-first r (repo.find recent t) absent (repo.find_complete recent t r matches own))
      ]

  save-AllApart :
      (row : PaymentLinkEvent) (t : repo.Table)
      → IsLast row t
      → AllApart t
      → AllApart (repo.save row t)
  save-AllApart row t last all j k q r at_j at_k different views = elim (Bool-cases (row.id == j)) [
    | inl e ↦
        let is_q : row ≡ q = ground (arith, e, at_j, repo.find_one-save row j t) in
        elim (Bool-cases (row.id == k)) [
          | inl f ↦ absurd (different (sym ((==_iff row.id j).0 e) ∙ (==_iff row.id k).0 f))
          | inr f ↦
              let old : repo.find_one k t ≡ some r =
                ground (arith, f, at_k, repo.find_one-save row k t) in
              inr (
                subst (λ x. r.created_at + view_debounce_window_ms < x.created_at) is_q
                  (last k r old (subst (λ x. AreViews x r) (sym is_q) views)))
        ]
    | inr e ↦
        let old_j : repo.find_one j t ≡ some q =
          ground (arith, e, at_j, repo.find_one-save row j t) in
        elim (Bool-cases (row.id == k)) [
          | inl f ↦
              let is_r : row ≡ r = ground (arith, f, at_k, repo.find_one-save row k t) in
              let back : AreViews r q = (views.1, views.0, sym views.2, sym views.3) in
              inl (
                subst (λ x. q.created_at + view_debounce_window_ms < x.created_at) is_r
                  (last j q old_j (subst (λ x. AreViews x q) (sym is_r) back)))
          | inr f ↦
              all j k q r old_j (ground (arith, f, at_k, repo.find_one-save row k t)) different
                views
        ]
  ]

  -- A write of a row that keeps the table apart.
  write-AllApart :
      (row : PaymentLinkEvent) (s : State repo hash_ip)
      → IsLast row s.tables
      → AllApart s.tables
      → AllApart (write (repo.save row) s).1.tables
  write-AllApart row s last all =
      let effect : ((write (repo.save row) s).1.tables ≡ s.tables)
          ⊎ ((write (repo.save row) s).1.tables ≡ repo.save row s.tables) =
        ground arith in
      elim effect [
        | inl same ↦ subst AllApart (sym same) all
        | inr saved ↦ subst AllApart (sym saved) (save-AllApart row s.tables last all)
      ]

  record_view-AllApart :
      (new now link : ℕ) (ip user_agent : Option ℕ) (s : State repo hash_ip)
      → AllApart s.tables
      → AllApart (record_view repo hash_ip new now link ip user_agent s).1.tables
  unfolding record_view
  record_view-AllApart new now link none user_agent s all = all
  record_view-AllApart new now link (some ip) user_agent s all =
      elim (Option-cases (first (repo.find (is_recent_view link (hash_ip ip) now) s.tables))) [
        | inr (existing, e) ↦ rw (e, record_view) all
        | inl e ↦
            let row : PaymentLinkEvent = record {
              id = new;
              payment_link_id = link;
              type = PaymentLinkEventType.view;
              ip_hash = hash_ip ip;
              user_agent = user_agent;
              created_at = now;
            } in
            rw (e, record_view) (write-AllApart row s (find-IsLast row s.tables e) all)
      ]

  record_redeem-AllApart :
      (unknown new now link : ℕ) (ip user_agent : Option ℕ) (s : State repo hash_ip)
      → AllApart s.tables
      → AllApart (record_redeem repo hash_ip unknown new now link ip user_agent s).1.tables
  unfolding record_redeem
  record_redeem-AllApart unknown new now link ip user_agent s all =
      write-AllApart _ s (λ k r found views. ground (arith, views.0)) all

  -- What views and redemptions at any times, in any order, make of a table.
  pub data Reaches (s : State repo hash_ip) : State repo hash_ip → Type 0 where
    here : Reaches s s
    views :
        (new now link : ℕ) (ip user_agent : Option ℕ) {t : State repo hash_ip}
        → Reaches s t
        → Reaches s (record_view repo hash_ip new now link ip user_agent t).1
    redeems :
        (unknown new now link : ℕ) (ip user_agent : Option ℕ) {t : State repo hash_ip}
        → Reaches s t
        → Reaches s (record_redeem repo hash_ip unknown new now link ip user_agent t).1

  -- If the views of each link from each address are more than an hour apart, they stay so, whatever views
  -- and redemptions are recorded, one after the other, and whatever writes fail.
  pub Reaches-AllApart :
      {s t : State repo hash_ip} → AllApart s.tables → Reaches s t → AllApart t.tables
  Reaches-AllApart all here = all
  Reaches-AllApart all (views new now link ip user_agent {t = t} r) =
      record_view-AllApart new now link ip user_agent t (Reaches-AllApart all r)
  Reaches-AllApart all (redeems unknown new now link ip user_agent {t = t} r) =
      record_redeem-AllApart unknown new now link ip user_agent t (Reaches-AllApart all r)
