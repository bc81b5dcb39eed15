-- ===== src/Accounts/Roles/Assigned.antt =====
-- The role of every user exists.
use facilpay_api.Common.{
  ℕ, ◌≡◌, refl, sym, ap, ◌∙◌, ◌⊎◌, inl, inr, true, not, Option, some, ◌==◌, is_empty, some_eq,
  arith, Bool-cases, Option-cases, In-is_empty,
}
use mathlib.Core.Path.{subst}
use facilpay_api.Repository.{restrict}
use facilpay_api.Accounts.Entities.{User}
use facilpay_api.Accounts.State.{Library, is_listed}
use facilpay_api.Accounts.Roles.{
  Role, CreateRoleDto, UpdateRoleDto, Roster, State, Tables, new_role, edited_role, is_unused,
  create_role, update_role, delete_role, assign_role,
}

module _ (db : Roster) where
  -- The role of a user, where it has one, is in the table.
  abbrev pub AllAssigned : Tables db → Type 0
  AllAssigned t =
      (k r : ℕ) (u : User)
      → db.users.find_one k t.users ≡ some u
      → u.role_id ≡ some r
      → (role : Role) × (db.roles.find_one r t.roles ≡ some role)

  save_role-AllAssigned :
      (role : Role) (t : Tables db)
      → AllAssigned t
      → AllAssigned (record t { roles = db.roles.save role t.roles })
  save_role-AllAssigned role t all k r u found has = elim (Bool-cases (role.id == r)) [
    | inl own ↦ (role, ground (arith, own, db.roles.find_one-save role r t.roles))
    | inr other ↦
        let (old, at) = all k r u found has in
        (old, ground (arith, other, at, db.roles.find_one-save role r t.roles))
  ]

  save_user-AllAssigned :
      (user : User) (role : Role) (role_id : ℕ) (t : Tables db)
      → user.role_id ≡ some role_id
      → db.roles.find_one role_id t.roles ≡ some role
      → AllAssigned t
      → AllAssigned (record t { users = db.users.save user t.users })
  save_user-AllAssigned user role role_id t own there all k r u found has =
      elim (Bool-cases (user.id == k)) [
        | inl same ↦
            let is_u : user ≡ u =
              ground (arith, same, found, db.users.find_one-save user k t.users) in
            let is_r : role_id ≡ r = ground (arith, own, has, ap (λ x. x.role_id) is_u) in
            (role, subst (λ i. db.roles.find_one i t.roles ≡ some role) is_r there)
        | inr other ↦
            all k r u (ground (arith, other, found, db.users.find_one-save user k t.users)) has
      ]

  remove-AllAssigned :
      (id : ℕ) (t : Tables db)
      → is_empty (db.users.find (λ u. some_eq u.role_id id) t.users) ≡ true
      → AllAssigned t
      → AllAssigned (record t { roles = db.roles.delete (λ r. r.id == id) t.roles })
  remove-AllAssigned id t unused all k r u found has =
      let (role, at) = all k r u found has in
      let role_key = db.roles.key-find_one r t.roles role at in
      elim (Bool-cases (r == id)) [
        | inl used ↦
            let user_key = db.users.key-find_one k t.users u found in
            let matches : some_eq u.role_id id ≡ true = ground (arith, has, used) in
            absurd (
              In-is_empty u (db.users.find (λ x. some_eq x.role_id id) t.users) unused (
                db.users.find_complete (λ x. some_eq x.role_id id) t.users u matches
                  (ap (λ i. db.users.find_one i t.users) user_key ∙ found)))
        | inr other ↦
            let kept : not (role.id == id) ≡ true = rw (role_key) (ground (arith, other)) in
            (role, ground (arith, at, kept, db.roles.find_one-delete (λ x. x.id == id) r t.roles))
      ]

  -- A call leaves the tables alone, or does one thing to them.
  either-AllAssigned :
      {before changed after : Tables db}
      → (after ≡ before) ⊎ (after ≡ changed)
      → AllAssigned before
      → AllAssigned changed
      → AllAssigned after
  either-AllAssigned (inl e) all all' = subst AllAssigned (sym e) all
  either-AllAssigned (inr e) all all' = subst AllAssigned (sym e) all'

  create_role-AllAssigned :
      (new : ℕ) (dto : CreateRoleDto) (s : State db)
      → AllAssigned s.tables
      → AllAssigned (create_role db new dto s).1.tables
  unfolding create_role
  create_role-AllAssigned new dto s all =
      let saved : Tables db = record s.tables {
        roles = db.roles.save (new_role new dto) s.tables.roles;
      } in
      either-AllAssigned {changed = saved} (ground arith) all
        (save_role-AllAssigned (new_role new dto) s.tables all)

  update_role-AllAssigned :
      (id : ℕ) (dto : UpdateRoleDto) (s : State db)
      → AllAssigned s.tables
      → AllAssigned (update_role db id dto s).1.tables
  unfolding update_role
  update_role-AllAssigned id dto s all = elim (Option-cases (db.roles.find_one id s.tables.roles)) [
    | inl absent ↦ either-AllAssigned (inl (ground (arith, absent))) all all
    | inr (role, found) ↦
        let saved : Tables db = record s.tables {
          roles = db.roles.save (edited_role dto role) s.tables.roles;
        } in
        either-AllAssigned {changed = saved} (ground (arith, found)) all
          (save_role-AllAssigned (edited_role dto role) s.tables all)
  ]

  delete_role-AllAssigned :
      (id : ℕ) (s : State db) → AllAssigned s.tables → AllAssigned (delete_role db id s).1.tables
  unfolding delete_role
  delete_role-AllAssigned id s all = elim (Option-cases (db.roles.find_one id s.tables.roles)) [
    | inl absent ↦ either-AllAssigned (inl (ground (arith, absent))) all all
    | inr (role, found) ↦
        let key = db.roles.key-find_one id s.tables.roles role found in
        let gone : Tables db = record s.tables {
          roles = db.roles.delete (λ r. r.id == role.id) s.tables.roles;
        } in
        elim (Bool-cases (is_unused db id s)) [
          | inr used ↦ either-AllAssigned (inl (ground (arith, found, used))) all all
          | inl unused ↦
              either-AllAssigned {changed = gone} (ground (arith, found, unused)) all
                (remove-AllAssigned role.id s.tables (rw (key) unused) all)
        ]
  ]

  assign_role-AllAssigned :
      (library : Library) (user_id role_id : ℕ) (actor : Option ℕ) (s : State db)
      → AllAssigned s.tables
      → AllAssigned (assign_role db library user_id role_id actor s).1.tables
  unfolding assign_role
  assign_role-AllAssigned library user_id role_id actor s all =
      let listed = restrict (is_listed library) (db.users.find_one user_id s.tables.users) in
      elim (Option-cases listed) [
        | inl absent ↦ either-AllAssigned (inl (ground (arith, absent))) all all
        | inr (user, found) ↦ elim (Option-cases (db.roles.find_one role_id s.tables.roles)) [
          | inl absent ↦ either-AllAssigned (inl (ground (arith, found, absent))) all all
          | inr (role, there) ↦
              let updated : User = record user { role_id = some role_id } in
              let saved : Tables db = record s.tables {
                users = db.users.save updated s.tables.users;
              } in
              either-AllAssigned {changed = saved} (ground (arith, found, there)) all
                (save_user-AllAssigned updated role role_id s.tables refl there all)
        ]
      ]

  -- What calls of the service reach.
  pub data Reaches (s : State db) : State db → Type 0 where
    here : Reaches s s
    creates :
        (new : ℕ) (dto : CreateRoleDto) {t : State db}
        → Reaches s t
        → Reaches s (create_role db new dto t).1
    updates :
        (id : ℕ) (dto : UpdateRoleDto) {t : State db}
        → Reaches s t
        → Reaches s (update_role db id dto t).1
    deletes : (id : ℕ) {t : State db} → Reaches s t → Reaches s (delete_role db id t).1
    assigns :
        (library : Library) (user_id role_id : ℕ) (actor : Option ℕ) {t : State db}
        → Reaches s t
        → Reaches s (assign_role db library user_id role_id actor t).1

  -- If the role of every user exists, it does after any calls that create, update, delete and assign roles
  -- one after the other, whatever they throw and whatever writes fail.
  pub Reaches-AllAssigned :
      {s t : State db} → AllAssigned s.tables → Reaches s t → AllAssigned t.tables
  Reaches-AllAssigned all here = all
  Reaches-AllAssigned all (creates new dto {t = t} r) =
      create_role-AllAssigned new dto t (Reaches-AllAssigned all r)
  Reaches-AllAssigned all (updates id dto {t = t} r) =
      update_role-AllAssigned id dto t (Reaches-AllAssigned all r)
  Reaches-AllAssigned all (deletes id {t = t} r) =
      delete_role-AllAssigned id t (Reaches-AllAssigned all r)
  Reaches-AllAssigned all (assigns library user_id role_id actor {t = t} r) =
      assign_role-AllAssigned library user_id role_id actor t (Reaches-AllAssigned all r)
