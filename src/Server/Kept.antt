-- ===== src/Server/Kept.antt =====
-- The routes keep what the statements keep, in the app of the request.
use open_aura.Prelude.{[], ◌∷◌, All, All-concat}
use open_aura.Schema.{Db, Uuid}
use open_aura.System.Statements.{StatementsKeep}
use open_aura.Server.{
  Parts, admin_api_key, admin_api_keys, api_key, api_keys, app, apps, decision, nothing, token,
}
use open_aura.Server.Routes.{
  admin_routes, app_routes, auth_routes, user_routes, tenant_routes, role_routes, permission_routes,
  role_assignment_routes, resource_routes, action_routes, access_routes, key_routes,
}
use open_aura.Server.InApp.{KeepsIn-deliver, Keeps-deliver}
use open_aura.Server.Handlers.Keys
use open_aura.Server.Handlers.Apps
use open_aura.Server.Handlers.AdminKeys
use open_aura.Server.Handlers.SignIn
use open_aura.Server.Handlers.SignIn.{VerifierKeeps}
use open_aura.Server.KeptEntities.{
  RouteKeepsIn, RouteKeeps, user_routes-KeepsIn, tenant_routes-KeepsIn, role_routes-KeepsIn,
  permission_routes-KeepsIn, role_assignment_routes-KeepsIn, resource_routes-KeepsIn,
  action_routes-KeepsIn,
}

module _ (A : Uuid → Type 0) (P : Db → Type 0) (k : StatementsKeep A P) (parts : Parts) where
  auth_routes-KeepsIn : VerifierKeeps P parts.auth → All (RouteKeepsIn A P) (auth_routes parts)
  unfolding auth_routes
  auth_routes-KeepsIn v = (
    λ r body.
        KeepsIn-deliver A P r.ctx token _
          (SignIn.register-KeepsIn A P k parts.auth r (parts.codec.register body)),
    (
      λ r body.
          KeepsIn-deliver A P r.ctx token _
            (SignIn.login-KeepsIn A P k parts.auth r (parts.codec.login body)),
      (
        λ r body.
            KeepsIn-deliver A P r.ctx token _
              (SignIn.apple-KeepsIn A P k parts.auth v r (parts.codec.apple body)),
        tt,
      ),
    ),
  )

  access_routes-KeepsIn : All (RouteKeepsIn A P) (access_routes parts)
  unfolding access_routes
  access_routes-KeepsIn = (
    λ r body.
        KeepsIn-deliver A P r.ctx decision _
          (SignIn.check-KeepsIn A P k parts.auth r (parts.codec.check body)),
    tt,
  )

  key_routes-KeepsIn : All (RouteKeepsIn A P) (key_routes parts)
  unfolding key_routes
  key_routes-KeepsIn = (
    λ r body.
        KeepsIn-deliver A P r.ctx api_key _
          (Keys.create-KeepsIn A P k r (parts.codec.create_api_key body)),
    (
      λ r body. KeepsIn-deliver A P r.ctx api_keys _ (Keys.list-KeepsIn A P k r),
      (
        λ r body. KeepsIn-deliver A P r.ctx api_key _ (Keys.get-KeepsIn A P k r),
        (λ r body. KeepsIn-deliver A P r.ctx nothing _ (Keys.delete-KeepsIn A P k r), tt),
      ),
    ),
  )

  pub app_routes-KeepsIn : VerifierKeeps P parts.auth → All (RouteKeepsIn A P) (app_routes parts)
  unfolding app_routes
  app_routes-KeepsIn v =
      All-concat (RouteKeepsIn A P)
        (auth_routes parts
          ∷ user_routes parts
          ∷ tenant_routes parts
          ∷ role_routes parts
          ∷ permission_routes parts
          ∷ role_assignment_routes parts
          ∷ resource_routes parts
          ∷ action_routes parts
          ∷ access_routes parts
          ∷ key_routes parts
          ∷ [])
        (
          auth_routes-KeepsIn v,
          (
            user_routes-KeepsIn A P k parts,
            (
              tenant_routes-KeepsIn A P k parts,
              (
                role_routes-KeepsIn A P k parts,
                (
                  permission_routes-KeepsIn A P k parts,
                  (
                    role_assignment_routes-KeepsIn A P k parts,
                    (
                      resource_routes-KeepsIn A P k parts,
                      (
                        action_routes-KeepsIn A P k parts,
                        (access_routes-KeepsIn, (key_routes-KeepsIn, tt)),
                      ),
                    ),
                  ),
                ),
              ),
            ),
          ),
        )

  -- the routes of an admin may write in any app
  pub admin_routes-Keeps : ((app : Uuid) → A app) → All (RouteKeeps P) (admin_routes parts)
  unfolding admin_routes
  admin_routes-Keeps own = (
    λ r body. Keeps-deliver app _ (Apps.create-Keeps A P k r (parts.codec.create_app body)),
    (
      λ r body. Keeps-deliver apps _ (Apps.list-Keeps A P k r),
      (
        λ r body. Keeps-deliver app _ (Apps.get-Keeps A P k r),
        (
          λ r body. Keeps-deliver app _ (Apps.update-Keeps A P k r (parts.codec.update_app body)),
          (
            λ r body. Keeps-deliver nothing _ (Apps.delete-Keeps A P k r),
            (
              λ r body.
                  Keeps-deliver api_key _
                    (Keys.admin_create-Keeps A P k own r (parts.codec.create_api_key body)),
              (
                λ r body.
                    Keeps-deliver admin_api_key _
                      (AdminKeys.create-Keeps A P k (parts.codec.create_admin_api_key body)),
                (
                  λ r body. Keeps-deliver admin_api_keys _ (AdminKeys.list-Keeps A P k r),
                  (
                    λ r body. Keeps-deliver admin_api_key _ (AdminKeys.get-Keeps A P k r),
                    (λ r body. Keeps-deliver nothing _ (AdminKeys.delete-Keeps A P k r), tt),
                  ),
                ),
              ),
            ),
          ),
        ),
      ),
    ),
  )
