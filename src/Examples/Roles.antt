-- ===== src/Examples/Roles.antt =====
-- The theorem on the guards of a route at concrete tables.
use facilpay_api.Common.{◌≡◌, ◌↔◌, refl, true, none, some, [], ◌∷◌, arith}
use facilpay_api.Common.Action.{ok}
use facilpay_api.Repository.Rows.{rows}
use facilpay_api.Accounts.Entities.{User}
use facilpay_api.Accounts.Roles.{
  Role, CreateRoleDto, Roster, State, new_role, create_role, delete_role, assign_role, use_guards,
}
use facilpay_api.Accounts.Roles.Assigned.{AllAssigned, Reaches}
use facilpay_api.Accounts.Roles.Permitted.{AllPermitted, use_guards_iff}
use facilpay_api.Examples.Accounts.{library, user}

abbrev roster : Roster
roster = record { users = rows (λ r. r.id); roles = rows (λ r. r.id) }

abbrev support : CreateRoleDto
support = record { name = 40; permissions = 70 ∷ 71 ∷ 72 ∷ []; description = none }

abbrev before : State roster
before = record { tables = record { users = user ∷ []; roles = [] }; outbox = []; faults = [] }

before-AllAssigned : AllAssigned roster before.tables
before-AllAssigned = λ k r u found has. ground (arith, found, has)

-- The role is created and assigned; then it cannot be deleted.
abbrev after : State roster
after =
    (delete_role roster 5
      (assign_role roster library 1 5 none (create_role roster 5 support before).1).1).1

after-Reaches : Reaches roster before after
after-Reaches =
    Reaches.deletes 5 (Reaches.assigns library 1 5 none (Reaches.creates 5 support Reaches.here))

abbrev agent : User
agent = record user { role_id = some 5 }

is_stored : roster.users.find_one 1 after.tables.users ≡ some agent
unfolding create_role new_role assign_role delete_role
is_stored = refl

use_guards_iff_example :
    (role : Role) × (roster.roles.find_one 5 after.tables.roles ≡ some role)
    × (((use_guards roster library (71 ∷ 70 ∷ []) 1 after).0 ≡ ok true)
        ↔ AllPermitted role (71 ∷ 70 ∷ []))
use_guards_iff_example =
    use_guards_iff roster before-AllAssigned after-Reaches library 1 5 71 (70 ∷ []) agent is_stored
      refl refl
