-- ===== src/Accounts/Users/Laws.antt =====
-- Finding a user by the address, and the row after an operation on it.
use facilpay_api.Common.{
  ℕ, ◌≡◌, refl, sym, ◌∙◌, ap, inl, inr, Bool, true, ◌&&◌, none, some, ◌==◌, All, In, arith,
  List-cases, Bool-cases, ==_iff, ◌⊎◌,
}
use mathlib.Core.Path.{subst}
use facilpay_api.Accounts.Entities.{User}
use facilpay_api.Accounts.State.{Accounts, Tables, Library, is_listed}
use facilpay_api.Accounts.Users.{find_by_email}

email_of :
    (library : Library) (email : ℕ) (x : User)
    → ((x.email == library.normalize_email email) && is_listed library x) ≡ true
    → x.email ≡ library.normalize_email email
email_of library email x h = ground (arith, h)

pub not_deleted-listed :
    (library : Library) (user : User) → user.deleted_at ≡ none → is_listed library user ≡ true
not_deleted-listed library user h = ground (arith, h)

module _ {db : Accounts} (library : Library) where
  -- All rows with the address are one row.
  abbrev pub IsUnique : ℕ → Tables db → Type 0
  IsUnique email t =
      (a b : User)
      → db.users.find_one a.id t.users ≡ some a
      → db.users.find_one b.id t.users ≡ some b
      → a.email ≡ library.normalize_email email
      → b.email ≡ library.normalize_email email
      → a.id ≡ b.id

  pub find_by_email_unique :
      (email : ℕ) (user : User) (t : Tables db)
      → IsUnique email t
      → db.users.find_one user.id t.users ≡ some user
      → user.email ≡ library.normalize_email email
      → is_listed library user ≡ true
      → find_by_email library email t ≡ some user
  unfolding find_by_email
  find_by_email_unique email user t unique here address listed =
      let p : User → Bool =
        λ u. (u.email == library.normalize_email email) && is_listed library u in
      let matches : p user ≡ true = ground (arith, address, listed) in
      let sound = db.users.find_sound p t.users in
      let complete = db.users.find_complete p t.users user matches here in
      elim (List-cases (db.users.find p t.users)) [
        | inl e ↦ absurd (subst (In user) e complete)
        | inr (x, rest, e) ↦
            let at_x = (subst (All _) e sound).0 in
            let same : x.id ≡ user.id =
              unique x user at_x.1 here (email_of library email x at_x.0) address in
            rw (e) (sym at_x.1 ∙ ap (λ k. db.users.find_one k t.users) same ∙ here)
      ]

  -- A row of the table after one user was saved is that user's, or was there.
  saved_row :
      (user a : User) (t t' : Tables db)
      → t'.users ≡ db.users.save user t.users
      → db.users.find_one a.id t'.users ≡ some a
      → (user.id ≡ a.id) ⊎ (db.users.find_one a.id t.users ≡ some a)
  saved_row user a t t' e found =
      let there : db.users.find_one a.id (db.users.save user t.users) ≡ some a = rw (← e) found in
      elim (Bool-cases (user.id == a.id)) [
        | inl same ↦ inl ((==_iff user.id a.id).0 same)
        | inr other ↦ inr (sym (db.users.find_one-save user a.id t.users ∙ rw (other) refl) ∙ there)
      ]

  -- Saving a user with the identifier and the address of a row keeps the address unique.
  pub save-IsUnique :
      (email : ℕ) (before user : User) (t t' : Tables db)
      → t'.users ≡ db.users.save user t.users
      → db.users.find_one before.id t.users ≡ some before
      → before.email ≡ library.normalize_email email
      → user.id ≡ before.id
      → IsUnique email t
      → IsUnique email t'
  save-IsUnique email before user t t' e here address same unique a b at_a at_b email_a email_b =
      elim (saved_row user a t t' e at_a) [
        | inl is_a ↦ elim (saved_row user b t t' e at_b) [
          | inl is_b ↦ sym is_a ∙ is_b
          | inr in_b ↦ sym is_a ∙ same ∙ unique before b here in_b address email_b
        ]
        | inr in_a ↦ elim (saved_row user b t t' e at_b) [
          | inl is_b ↦ unique a before in_a here email_a address ∙ sym same ∙ is_b
          | inr in_b ↦ unique a b in_a in_b email_a email_b
        ]
      ]
