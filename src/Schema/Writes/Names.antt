-- ===== src/Schema/Writes/Names.antt =====
-- The statements that write roles, resources and actions.
use open_aura.Prelude.{ℕ, Bool, none, some, String, [], ◌∷◌, ◌++◌, any, ◌==◌, if◌then◌else◌}
use open_aura.Json.{Json}
use open_aura.Schema.{Time, Db, Role, Resource, Action}
use open_aura.Sql.{select_one, update_rows, refuses_insert, refuses_update}
use open_aura.Store.{no_rows}
use open_aura.Effect.{ok, err}
use open_aura.Schema.Constraints.{
  Outcome, unique_violation, foreign_key_violation, affected, app_table, tenant_table, user_table,
  resource_table, action_table, role_assignment_table, permission_table, api_key_table,
  admin_api_key_table, identity_table, role_table,
}

-- INSERT INTO roles ... RETURNING
unfoldable pub insert_role : (Json → String) → Role → Db → Outcome Role
insert_role json_text r db =
    if refuses_insert ⦃t = role_table json_text⦄ r db.roles
    then err unique_violation
    else if any (λ x. x.id == r.app_id) db.apps
    then ok (r, record db { roles = db.roles ++ r ∷ [] })
    else err foreign_key_violation

-- UPDATE roles SET f WHERE p RETURNING
unfoldable pub update_role : (Json → String) → (Role → Bool) → (Role → Role) → Db → Outcome Role
update_role json_text p f db = elim (select_one p db.roles) [
  | none ↦ err no_rows
  | some r ↦
      if refuses_update ⦃t = role_table json_text⦄ p f db.roles
      then err unique_violation
      else ok (f r, record db { roles = update_rows p f db.roles })
]

-- UPDATE roles SET deleted_at, updated_at = now WHERE p, for the number of rows
unfoldable pub delete_role : (Role → Bool) → Time → Db → Outcome ℕ
delete_role p now db = ok (
  affected p db.roles,
  record db {
    roles = update_rows p (λ r. record r { deleted_at = some now; updated_at = now }) db.roles;
  },
)

-- INSERT INTO resources ... RETURNING
unfoldable pub insert_resource : Resource → Db → Outcome Resource
insert_resource r db =
    if refuses_insert r db.resources
    then err unique_violation
    else if any (λ x. x.id == r.app_id) db.apps
    then ok (r, record db { resources = db.resources ++ r ∷ [] })
    else err foreign_key_violation

-- UPDATE resources SET f WHERE p RETURNING
unfoldable pub update_resource : (Resource → Bool) → (Resource → Resource) → Db → Outcome Resource
update_resource p f db = elim (select_one p db.resources) [
  | none ↦ err no_rows
  | some r ↦
      if refuses_update p f db.resources
      then err unique_violation
      else ok (f r, record db { resources = update_rows p f db.resources })
]

-- UPDATE resources SET deleted_at, updated_at = now WHERE p, for the number of rows
unfoldable pub delete_resource : (Resource → Bool) → Time → Db → Outcome ℕ
delete_resource p now db = ok (
  affected p db.resources,
  record db {
    resources =
        update_rows p (λ r. record r { deleted_at = some now; updated_at = now }) db.resources;
  },
)

-- INSERT INTO actions ... RETURNING
unfoldable pub insert_action : Action → Db → Outcome Action
insert_action r db =
    if refuses_insert r db.actions
    then err unique_violation
    else if any (λ x. x.id == r.app_id) db.apps
    then ok (r, record db { actions = db.actions ++ r ∷ [] })
    else err foreign_key_violation

-- UPDATE actions SET f WHERE p RETURNING
unfoldable pub update_action : (Action → Bool) → (Action → Action) → Db → Outcome Action
update_action p f db = elim (select_one p db.actions) [
  | none ↦ err no_rows
  | some r ↦
      if refuses_update p f db.actions
      then err unique_violation
      else ok (f r, record db { actions = update_rows p f db.actions })
]

-- UPDATE actions SET deleted_at, updated_at = now WHERE p, for the number of rows
unfoldable pub delete_action : (Action → Bool) → Time → Db → Outcome ℕ
delete_action p now db = ok (
  affected p db.actions,
  record db {
    actions = update_rows p (λ r. record r { deleted_at = some now; updated_at = now }) db.actions;
  },
)
