-- ===== src/Accounts/Roles.antt =====
-- auth.service.ts: getRoles, getRoleById, createRole, updateRole, deleteRole and assignRole, with
-- validateUser, role.entity.ts and the DTOs of roles; jwt.strategy.ts and permissions.guard.ts. The other operations of the services
-- leave the role of a user alone.
pub mod Assigned
pub mod Permitted
use facilpay_api.Common.{
  ℕ, Bool, true, false, not, ◌&&◌, ◌||◌, Option, none, some, List, [], ◌∷◌, ◌==◌, if◌then◌else◌,
  includes, is_empty, is_some, first, or_else, some_eq, ⊤,
}
use facilpay_api.Common.Action.{
  Result, not_found, bad_request, forbidden, unauthorized, ◌>>=◌, ◌>>◌, pure, or_throw, throw_if,
}
use facilpay_api.Common.Store.{Store, write, emit}
use facilpay_api.Repository.{Repository, restrict}
use facilpay_api.Accounts.Entities.{User}
use facilpay_api.Accounts.State.{Library, is_listed}

pub record Role : Type 0 where
  pub id : ℕ
  pub name : ℕ
  pub permissions : List ℕ
  pub description : ℕ

pub record CreateRoleDto : Type 0 where
  pub name : ℕ
  pub permissions : List ℕ
  pub description : Option ℕ

pub record UpdateRoleDto : Type 0 where
  pub name : Option ℕ
  pub permissions : Option (List ℕ)
  pub description : Option ℕ

pub data RoleEvent : Type 0 where
  -- 'auth.role.assigned': the actor, the user and the role
  role_assigned : Option ℕ → ℕ → ℕ → RoleEvent

pub record Roster : Type 1 where
  pub users : Repository User (λ r. r.id)
  pub roles : Repository Role (λ r. r.id)

-- The number of the empty text.
abbrev pub empty_text : ℕ
empty_text = 0

unfoldable pub new_role : ℕ → CreateRoleDto → Role
new_role new dto = record {
  id = new;
  name = dto.name;
  permissions = dto.permissions;
  description = or_else dto.description empty_text;
}

unfoldable pub edited_role : UpdateRoleDto → Role → Role
edited_role dto role = record role {
  name = or_else dto.name role.name;
  permissions = or_else dto.permissions role.permissions;
  description = or_else dto.description role.description;
}

-- `required.every((permission) => permissions.includes(permission))`
unfoldable pub has_permissions : List ℕ → List ℕ → Bool
has_permissions permissions [] = true
has_permissions permissions (required ∷ rest) =
    includes required permissions && has_permissions permissions rest

module _ (db : Roster) where
  pub record Tables : Type 0 where
    pub users : db.users.Table
    pub roles : db.roles.Table

  abbrev pub State : Type 0
  State = Store Tables RoleEvent

  abbrev pub save_role : Role → State → Result ⊤ × State
  save_role role = write (λ t. record t { roles = db.roles.save role t.roles })

  abbrev pub find_role : ℕ → State → Result Role × State
  find_role id s = or_throw (db.roles.find_one id s.tables.roles) not_found s

  -- `findOne({ where: { name } })`
  abbrev pub is_taken : ℕ → State → Bool
  is_taken name s = is_some (first (db.roles.find (λ r. r.name == name) s.tables.roles))

  -- The order of the rows is left out.
  unfoldable pub get_roles : State → List Role
  get_roles s = db.roles.find (λ r. true) s.tables.roles

  unfoldable pub create_role : ℕ → CreateRoleDto → State → Result Role × State
  create_role new dto = do
    λ s. throw_if (is_taken dto.name s) bad_request s
    save_role (new_role new dto)
    pure (new_role new dto)

  -- A name that is not empty, and another one than before, must not be taken.
  unfoldable pub is_clash : Option ℕ → Role → State → Bool
  is_clash none role s = false
  is_clash (some name) role s =
      not (name == empty_text) && not (name == role.name) && is_taken name s

  unfoldable pub update_role : ℕ → UpdateRoleDto → State → Result Role × State
  update_role id dto = do
    role ← find_role id
    λ s. throw_if (is_clash dto.name role s) bad_request s
    save_role (edited_role dto role)
    pure (edited_role dto role)

  -- `userRepository.count({ where: { roleId } })` is zero.
  abbrev pub is_unused : ℕ → State → Bool
  is_unused id s = is_empty (db.users.find (λ u. some_eq u.role_id id) s.tables.users)

  unfoldable pub delete_role : ℕ → State → Result ⊤ × State
  delete_role id = do
    role ← find_role id
    λ s. throw_if (not (is_unused id s)) bad_request s
    write (λ t. record t { roles = db.roles.delete (λ r. r.id == role.id) t.roles })

  -- The user comes from `usersService.findOne`, and the entry of the audit log is a write that may throw.
  unfoldable pub assign_role : Library → ℕ → ℕ → Option ℕ → State → Result User × State
  assign_role library user_id role_id actor = do
    user ← λ s.
        or_throw (restrict (is_listed library) (db.users.find_one user_id s.tables.users)) not_found
          s
    role ← λ s. or_throw (db.roles.find_one role_id s.tables.roles) bad_request s
    let updated = record user { role_id = some role_id }
    write (λ t. record t { users = db.users.save updated t.users })
    write (λ t. t)
    emit (role_assigned actor user_id role_id ∷ [])
    pure updated

  -- The guard of a route with the permissions that it requires, for the role of the user of the request.
  unfoldable pub can_activate : List ℕ → Option ℕ → State → Result Bool × State
  can_activate required role_id s =
      if is_empty required
      then pure true s
      else ((do
        id ← or_throw role_id forbidden
        role ← λ t. or_throw (db.roles.find_one id t.tables.roles) forbidden t
        throw_if (not (has_permissions role.permissions required)) forbidden
        pure true)
          s)

  -- `validateUser`: a user that is not found is null.
  abbrev pub validate_user : Library → ℕ → State → Option User
  validate_user library id s = restrict (is_listed library) (db.users.find_one id s.tables.users)

  -- The strategy for the token of a request, whose subject is given.
  unfoldable pub validate : Library → ℕ → State → Result User × State
  validate library sub s = or_throw (validate_user library sub s) unauthorized s

  -- The guards of a route in their order: that of the token, which sets the user of the request, and
  -- that of the permissions.
  unfoldable pub use_guards : Library → List ℕ → ℕ → State → Result Bool × State
  use_guards library required sub = do
    user ← validate library sub
    can_activate required user.role_id
