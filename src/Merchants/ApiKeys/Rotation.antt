-- ===== src/Merchants/ApiKeys/Rotation.antt =====
-- A rotation replaces a key by a new one.
use facilpay_api.Common.{
  ℕ, ◌≡◌, ◌≢◌, refl, ◌∙◌, ap, inl, inr, true, false, not, ◌&&◌, ◌||◌, Option, some, [], ◌==◌, All,
  arith, List-cases,
}
use mathlib.Core.Path.{subst}
use facilpay_api.Common.Action.{ok, err, is_ok, unauthorized, bind_ok}
use facilpay_api.Common.Text.{Text}
use facilpay_api.Repository.{find_one-saved}
use facilpay_api.Merchants.ApiKeys.{
  ApiKey, Fresh, Library, Keys, State, deactivated, is_past, is_denied, rotated_plaintext,
  rotated_key, find_own, replace_key, rotate, validate_key,
}

module _ {db : Keys} (library : Library) where
  find_own_ok :
      (id user_id : ℕ) (key : ApiKey) (s : State db)
      → (find_own library true id user_id s).0 ≡ ok key
      → (db.api_keys.find_one key.key_hash s.tables.api_keys ≡ some key)
        × ((key.id ≡ id) × (key.user_id ≡ user_id) × (key.is_active ≡ true))
        × ((find_own library true id user_id s).1 ≡ s)
  unfolding find_own
  find_own_ok id user_id key s h =
      let sound =
        db.api_keys.find_sound
          (λ r. ((r.id == id) && (r.user_id == user_id)) && (not true || r.is_active))
          s.tables.api_keys in
      elim (List-cases (
        db.api_keys.find
          (λ r. ((r.id == id) && (r.user_id == user_id)) && (not true || r.is_active))
          s.tables.api_keys)) [
            | inl e ↦ ground (arith, e, h)
            | inr (row, rest, e) ↦
                let (matches, here) = (subst (All _) e sound).0 in
                ground (arith, e, h, matches, here)
          ]

  replace_key_tables :
      (fresh : Fresh) (key new : ApiKey) (s : State db)
      → (replace_key library fresh key s).0 ≡ ok new
      → (replace_key library fresh key s).1.tables.api_keys
        ≡ db.api_keys.save
            (rotated_key library fresh key)
            (db.api_keys.save (deactivated key) s.tables.api_keys)
  unfolding replace_key
  replace_key_tables fresh key new s h = ground (arith, h)

  inactive_refused :
      (now plaintext : ℕ) (source_ip : Option Text) (key : ApiKey) (s : State db)
      → db.api_keys.find_one (library.sha256 plaintext) s.tables.api_keys ≡ some key
      → key.is_active ≡ false
      → validate_key library now plaintext source_ip s ≡ (err unauthorized, s)
  unfolding validate_key
  inactive_refused now plaintext source_ip key s here inactive = ground (arith, here, inactive)

  pub active_accepted :
      (now plaintext : ℕ) (source_ip : Option Text) (key : ApiKey) (s : State db)
      → db.api_keys.find_one (library.sha256 plaintext) s.tables.api_keys ≡ some key
      → key.is_active ≡ true
      → is_past now key.expires_at ≡ false
      → is_denied library.net source_ip key.allowed_ips ≡ false
      → s.faults ≡ []
      → (validate_key library now plaintext source_ip s).0
        ≡ ok (record key { last_used_at = some now })
  unfolding validate_key
  active_accepted now plaintext source_ip key s here active valid allowed f =
      ground (arith, here, active, valid, allowed, f)

  -- The old key is refused from now on, and the new one is accepted in time and from an allowed
  -- address, if no write fails.
  abbrev pub IsReplaced : Fresh → ApiKey → State db → Type 0
  IsReplaced fresh key s =
      ((now plaintext : ℕ) (source_ip : Option Text)
        → library.sha256 plaintext ≡ key.key_hash
        → validate_key library now plaintext source_ip s ≡ (err unauthorized, s))
      × ((now : ℕ) (source_ip : Option Text)
          → is_past now key.expires_at ≡ false
          → is_denied library.net source_ip key.allowed_ips ≡ false
          → s.faults ≡ []
          → is_ok (validate_key library now (rotated_plaintext library fresh key) source_ip s).0
            ≡ true)

  saved_twice-IsReplaced :
      (fresh : Fresh) (key : ApiKey) (t : db.api_keys.Table) (s : State db)
      → library.sha256 (rotated_plaintext library fresh key) ≢ key.key_hash
      → s.tables.api_keys
        ≡ db.api_keys.save (rotated_key library fresh key) (db.api_keys.save (deactivated key) t)
      → IsReplaced fresh key s
  unfolding rotated_key
  saved_twice-IsReplaced fresh key t s other saved = (
    λ now plaintext source_ip same.
        inactive_refused now plaintext source_ip (deactivated key) s
          (ground (
            arith,
            same,
            saved,
            other,
            db.api_keys.find_one-save (rotated_key library fresh key) (library.sha256 plaintext)
                (db.api_keys.save (deactivated key) t),
            db.api_keys.find_one-save (deactivated key) (library.sha256 plaintext) t,
          ))
          refl,
    λ now source_ip valid allowed f.
        let row = rotated_key library fresh key in
        let found =
          ap (db.api_keys.find_one row.key_hash) saved
          ∙ find_one-saved db.api_keys row (db.api_keys.save (deactivated key) t) in
        ap is_ok (
          active_accepted now (rotated_plaintext library fresh key) source_ip row s found refl valid
            allowed f),
  )

  -- After a rotation that returned, there was an active key of the user with the identifier; if the
  -- hash of the new plain text is another one, the old key is refused at any time and from any
  -- address, and the new one is accepted, before the old key's expiry, from an address on its list,
  -- when no write fails.
  pub rotate-IsReplaced :
      (fresh : Fresh) (id user_id : ℕ) (new : ApiKey) (s : State db)
      → (rotate library fresh id user_id s).0 ≡ ok new
      → (key : ApiKey) × (db.api_keys.find_one key.key_hash s.tables.api_keys ≡ some key)
        × ((key.id ≡ id) × (key.user_id ≡ user_id) × (key.is_active ≡ true))
        × (library.sha256 (rotated_plaintext library fresh key) ≢ key.key_hash
            → IsReplaced fresh key (rotate library fresh id user_id s).1)
  unfolding rotate
  rotate-IsReplaced fresh id user_id new s h =
      let find = find_own library true id user_id in
      let (key, e, one) = bind_ok find (replace_key library fresh) s new h in
      let (here, owned, unchanged) = find_own_ok id user_id key s e in
      let run = one ∙ ap (replace_key library fresh key) unchanged in
      let saved =
        ap (λ r. r.1.tables.api_keys) run ∙ replace_key_tables fresh key new s (rw (← run) h) in
      (key, here, owned, λ other. saved_twice-IsReplaced fresh key s.tables.api_keys _ other saved)
