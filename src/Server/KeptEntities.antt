-- ===== src/Server/KeptEntities.antt =====
-- The routes of the entities keep what the statements keep, in the app of the request.
use open_aura.Prelude.{String, All}
use open_aura.Schema.{Db, Uuid}
use open_aura.Effect.Keeps.{Keeps}
use open_aura.Httpx.{Request}
use open_aura.System.Statements.{StatementsKeep}
use open_aura.Server.{
  Parts, action, actions, nothing, permission, permissions, resource, resources, role,
  role_assignment, role_assignments, roles, tenant, tenants, user, users,
}
use open_aura.Server.Mux.{Route}
use open_aura.Server.Routes.{
  user_routes, tenant_routes, role_routes, permission_routes, role_assignment_routes,
  resource_routes, action_routes,
}
use open_aura.Server.InApp.{KeepsIn, KeepsIn-deliver}
use open_aura.Server.Handlers.Users
use open_aura.Server.Handlers.Tenants
use open_aura.Server.Handlers.Roles
use open_aura.Server.Handlers.Permissions
use open_aura.Server.Handlers.Assignments
use open_aura.Server.Handlers.Resources
use open_aura.Server.Handlers.Actions

-- A route that runs in the app of the request.
abbrev pub RouteKeepsIn : (Uuid → Type 0) → (Db → Type 0) → Route → Type 0
RouteKeepsIn A P x = (r : Request) (body : String) → KeepsIn A P r.ctx (x.serve r body)

abbrev pub RouteKeeps : (Db → Type 0) → Route → Type 0
RouteKeeps P x = (r : Request) (body : String) → Keeps P (x.serve r body)

module _ (A : Uuid → Type 0) (P : Db → Type 0) (k : StatementsKeep A P) (parts : Parts) where
  pub user_routes-KeepsIn : All (RouteKeepsIn A P) (user_routes parts)
  unfolding user_routes
  user_routes-KeepsIn = (
    λ r body.
        KeepsIn-deliver A P r.ctx user _
          (Users.create-KeepsIn A P k r (parts.codec.create_user body)),
    (
      λ r body. KeepsIn-deliver A P r.ctx users _ (Users.list-KeepsIn A P k r),
      (
        λ r body. KeepsIn-deliver A P r.ctx user _ (Users.get-KeepsIn A P k r),
        (
          λ r body.
              KeepsIn-deliver A P r.ctx user _
                (Users.update-KeepsIn A P k r (parts.codec.update_user body)),
          (λ r body. KeepsIn-deliver A P r.ctx nothing _ (Users.delete-KeepsIn A P k r), tt),
        ),
      ),
    ),
  )

  pub tenant_routes-KeepsIn : All (RouteKeepsIn A P) (tenant_routes parts)
  unfolding tenant_routes
  tenant_routes-KeepsIn = (
    λ r body.
        KeepsIn-deliver A P r.ctx tenant _
          (Tenants.create-KeepsIn A P k r (parts.codec.create_tenant body)),
    (
      λ r body. KeepsIn-deliver A P r.ctx tenants _ (Tenants.list-KeepsIn A P k r),
      (
        λ r body. KeepsIn-deliver A P r.ctx tenant _ (Tenants.get-KeepsIn A P k r),
        (
          λ r body.
              KeepsIn-deliver A P r.ctx tenant _
                (Tenants.update-KeepsIn A P k r (parts.codec.update_tenant body)),
          (λ r body. KeepsIn-deliver A P r.ctx nothing _ (Tenants.delete-KeepsIn A P k r), tt),
        ),
      ),
    ),
  )

  pub role_routes-KeepsIn : All (RouteKeepsIn A P) (role_routes parts)
  unfolding role_routes
  role_routes-KeepsIn = (
    λ r body.
        KeepsIn-deliver A P r.ctx role _
          (Roles.create-KeepsIn A P k r (parts.codec.create_role body)),
    (
      λ r body. KeepsIn-deliver A P r.ctx roles _ (Roles.list-KeepsIn A P k r),
      (
        λ r body. KeepsIn-deliver A P r.ctx role _ (Roles.get-KeepsIn A P k r),
        (
          λ r body.
              KeepsIn-deliver A P r.ctx role _
                (Roles.update-KeepsIn A P k r (parts.codec.update_role body)),
          (λ r body. KeepsIn-deliver A P r.ctx nothing _ (Roles.delete-KeepsIn A P k r), tt),
        ),
      ),
    ),
  )

  pub permission_routes-KeepsIn : All (RouteKeepsIn A P) (permission_routes parts)
  unfolding permission_routes
  permission_routes-KeepsIn = (
    λ r body.
        KeepsIn-deliver A P r.ctx permission _
          (Permissions.create-KeepsIn A P k r (parts.codec.create_permission body)),
    (
      λ r body. KeepsIn-deliver A P r.ctx permissions _ (Permissions.list-KeepsIn A P k r),
      (
        λ r body. KeepsIn-deliver A P r.ctx permission _ (Permissions.get-KeepsIn A P k r),
        (λ r body. KeepsIn-deliver A P r.ctx nothing _ (Permissions.delete-KeepsIn A P k r), tt),
      ),
    ),
  )

  pub role_assignment_routes-KeepsIn : All (RouteKeepsIn A P) (role_assignment_routes parts)
  unfolding role_assignment_routes
  role_assignment_routes-KeepsIn = (
    λ r body.
        KeepsIn-deliver A P r.ctx role_assignment _
          (Assignments.create-KeepsIn A P k r (parts.codec.create_role_assignment body)),
    (
      λ r body. KeepsIn-deliver A P r.ctx role_assignments _ (Assignments.list-KeepsIn A P k r),
      (
        λ r body. KeepsIn-deliver A P r.ctx role_assignment _ (Assignments.get-KeepsIn A P k r),
        (
          λ r body.
              KeepsIn-deliver A P r.ctx role_assignment _
                (Assignments.update-KeepsIn A P k r (parts.codec.update_role_assignment body)),
          (λ r body. KeepsIn-deliver A P r.ctx nothing _ (Assignments.delete-KeepsIn A P k r), tt),
        ),
      ),
    ),
  )

  pub resource_routes-KeepsIn : All (RouteKeepsIn A P) (resource_routes parts)
  unfolding resource_routes
  resource_routes-KeepsIn = (
    λ r body.
        KeepsIn-deliver A P r.ctx resource _
          (Resources.create-KeepsIn A P k r (parts.codec.create_resource body)),
    (
      λ r body. KeepsIn-deliver A P r.ctx resources _ (Resources.list-KeepsIn A P k r),
      (
        λ r body. KeepsIn-deliver A P r.ctx resource _ (Resources.get-KeepsIn A P k r),
        (
          λ r body.
              KeepsIn-deliver A P r.ctx resource _
                (Resources.update-KeepsIn A P k r (parts.codec.update_resource body)),
          (λ r body. KeepsIn-deliver A P r.ctx nothing _ (Resources.delete-KeepsIn A P k r), tt),
        ),
      ),
    ),
  )

  pub action_routes-KeepsIn : All (RouteKeepsIn A P) (action_routes parts)
  unfolding action_routes
  action_routes-KeepsIn = (
    λ r body.
        KeepsIn-deliver A P r.ctx action _
          (Actions.create-KeepsIn A P k r (parts.codec.create_action body)),
    (
      λ r body. KeepsIn-deliver A P r.ctx actions _ (Actions.list-KeepsIn A P k r),
      (
        λ r body. KeepsIn-deliver A P r.ctx action _ (Actions.get-KeepsIn A P k r),
        (
          λ r body.
              KeepsIn-deliver A P r.ctx action _
                (Actions.update-KeepsIn A P k r (parts.codec.update_action body)),
          (λ r body. KeepsIn-deliver A P r.ctx nothing _ (Actions.delete-KeepsIn A P k r), tt),
        ),
      ),
    ),
  )
