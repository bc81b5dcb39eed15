-- ===== src/Accounts/Roles/Permitted.antt =====
-- Whom the guard lets pass.
use facilpay_api.Common.{
  ℕ, ◌≡◌, ◌↔◌, refl, inl, inr, true, some, List, [], ◌∷◌, includes_iff, All, In, arith, Bool-cases,
}
use facilpay_api.Common.Action.{ok}
use facilpay_api.Accounts.Entities.{User}
use facilpay_api.Accounts.State.{Library, is_listed}
use facilpay_api.Accounts.Roles.{
  Role, Roster, State, has_permissions, can_activate, validate, use_guards,
}
use facilpay_api.Accounts.Roles.Assigned.{AllAssigned, Reaches, Reaches-AllAssigned}

-- Each of the permissions is one of the role's.
abbrev pub AllPermitted : Role → List ℕ → Type 0
AllPermitted role required = All (λ permission. In permission role.permissions) required

has_permissions_iff :
    (role : Role) (required : List ℕ)
    → (has_permissions role.permissions required ≡ true) ↔ AllPermitted role required
unfolding has_permissions
has_permissions_iff role [] = (λ h. tt, λ h. refl)
has_permissions_iff role (p ∷ rest) =
    let here = includes_iff p role.permissions in
    let others = has_permissions_iff role rest in
    (
      λ h. (here.0 (ground (arith, h)), others.0 (ground (arith, h))),
      λ h. ground (arith, here.1 h.0, others.1 h.1),
    )

module _ (db : Roster) where
  can_activate_iff :
      (r permission : ℕ) (required : List ℕ) (role : Role) (s : State db)
      → db.roles.find_one r s.tables.roles ≡ some role
      → ((can_activate db (permission ∷ required) (some r) s).0 ≡ ok true)
        ↔ AllPermitted role (permission ∷ required)
  unfolding can_activate
  can_activate_iff r permission required role s at =
      let iff = has_permissions_iff role (permission ∷ required) in
      (
        λ h. iff.0 (elim (Bool-cases (has_permissions role.permissions (permission ∷ required))) [
          | inl has ↦ has
          | inr lacks ↦ ground (arith, at, lacks, h)
        ]),
        λ h. ground (arith, at, iff.1 h),
      )

  -- If the role of every user exists at first, then in every state that calls of the service reach, the
  -- token of a listed user with a role passes the guards of a route that requires permissions
  -- exactly when that role is in the table with all of them.
  pub use_guards_iff :
      {s t : State db}
      → AllAssigned db s.tables
      → Reaches db s t
      → (library : Library) (k r permission : ℕ) (required : List ℕ) (u : User)
      → db.users.find_one k t.tables.users ≡ some u
      → is_listed library u ≡ true
      → u.role_id ≡ some r
      → (role : Role) × (db.roles.find_one r t.tables.roles ≡ some role)
        × (((use_guards db library (permission ∷ required) k t).0 ≡ ok true)
            ↔ AllPermitted role (permission ∷ required))
  unfolding use_guards validate
  use_guards_iff {t = t} all path library k r permission required u found listed has =
      let (role, at) = Reaches-AllAssigned db all path k r u found has in
      let iff = can_activate_iff r permission required role t at in
      let guards : (use_guards db library (permission ∷ required) k t).0
          ≡ (can_activate db (permission ∷ required) (some r) t).0 =
        ground (arith, found, listed, has) in
      (role, at, rw (guards) iff)
