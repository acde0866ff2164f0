-- ===== src/System/Isolation/Names.antt =====
-- The statements that write roles, resources and actions of other apps.
use open_aura.Prelude.{◌≡◌, ◌≢◌, refl, sym, subst, ◌==◌, ◌&&◌, [], ◌∷◌, ◌++◌, arith, some, String}
use open_aura.Json.{Json, Fields}
use open_aura.Schema.{is_null, Uuid, Time, Role, Resource, Action}
use open_aura.Schema.Writes.{
  insert_role, update_role, delete_role, insert_resource, update_resource, delete_resource,
  insert_action, update_action, delete_action,
}
use open_aura.Sql.{update_rows}
use open_aura.Effect.Keeps.{WriteKeeps}
use open_aura.System.Isolation.{View, Sees, other_added, other_updated}

module _ (b : Uuid) (v : View) where
  pub insert_role-Sees :
      (json_text : Json → String) (r : Role)
      → r.app_id ≢ b
      → WriteKeeps (Sees b v) (insert_role json_text r)
  unfolding insert_role
  insert_role-Sees json_text r n db k a db' h =
      let e : db' ≡ record db { roles = db.roles ++ r ∷ [] } = ground arith in
      subst (Sees b v) (sym e) (rw (other_added (λ (s : Role). s.app_id) b db.roles r n) k)

  pub update_role-Sees :
      (app id : Uuid)
      → app ≢ b
      → (json_text : Json → String) (metadata : Fields) (t : Time)
      → WriteKeeps (Sees b v) (
          update_role json_text
            (λ r. r.id == id && r.app_id == app && is_null r.deleted_at)
            (λ r. record r { metadata = metadata; updated_at = t }))
  unfolding update_role
  update_role-Sees app id n json_text metadata t db k a db' h =
      let e : db' ≡ record db {
        roles =
            update_rows (λ r. r.id == id && r.app_id == app && is_null r.deleted_at)
              (λ r. record r { metadata = metadata; updated_at = t }) db.roles;
      } =
        ground arith in
      subst (Sees b v) (sym e) (
        rw
          (other_updated (λ (s : Role). s.app_id) b (λ s. s.id) (λ s. is_null s.deleted_at) id app
            (λ r. record r { metadata = metadata; updated_at = t }) db.roles n (λ r. refl))
          k)

  pub delete_role-Sees :
      (app id : Uuid)
      → app ≢ b
      → (t : Time)
      → WriteKeeps
          (Sees b v)
          (delete_role (λ r. r.id == id && r.app_id == app && is_null r.deleted_at) t)
  unfolding delete_role
  delete_role-Sees app id n t db k a db' h =
      let e : db' ≡ record db {
        roles =
            update_rows (λ r. r.id == id && r.app_id == app && is_null r.deleted_at)
              (λ r. record r { deleted_at = some t; updated_at = t }) db.roles;
      } =
        ground arith in
      subst (Sees b v) (sym e) (
        rw
          (other_updated (λ (s : Role). s.app_id) b (λ s. s.id) (λ s. is_null s.deleted_at) id app
            (λ r. record r { deleted_at = some t; updated_at = t }) db.roles n (λ r. refl))
          k)

  pub insert_resource-Sees :
      (r : Resource) → r.app_id ≢ b → WriteKeeps (Sees b v) (insert_resource r)
  unfolding insert_resource
  insert_resource-Sees r n db k a db' h =
      let e : db' ≡ record db { resources = db.resources ++ r ∷ [] } = ground arith in
      subst (Sees b v) (sym e) (rw (other_added (λ (s : Resource). s.app_id) b db.resources r n) k)

  pub update_resource-Sees :
      (app id : Uuid)
      → app ≢ b
      → (name : String) (metadata : Fields) (t : Time)
      → WriteKeeps (Sees b v) (
          update_resource
            (λ r. r.id == id && r.app_id == app && is_null r.deleted_at)
            (λ r. record r { name = name; metadata = metadata; updated_at = t }))
  unfolding update_resource
  update_resource-Sees app id n name metadata t db k a db' h =
      let e : db' ≡ record db {
        resources =
            update_rows (λ r. r.id == id && r.app_id == app && is_null r.deleted_at)
              (λ r. record r { name = name; metadata = metadata; updated_at = t }) db.resources;
      } =
        ground arith in
      subst (Sees b v) (sym e) (
        rw
          (other_updated (λ (s : Resource). s.app_id) b (λ s. s.id) (λ s. is_null s.deleted_at) id
            app (λ r. record r { name = name; metadata = metadata; updated_at = t }) db.resources n
            (λ r. refl))
          k)

  pub delete_resource-Sees :
      (app id : Uuid)
      → app ≢ b
      → (t : Time)
      → WriteKeeps
          (Sees b v)
          (delete_resource (λ r. r.id == id && r.app_id == app && is_null r.deleted_at) t)
  unfolding delete_resource
  delete_resource-Sees app id n t db k a db' h =
      let e : db' ≡ record db {
        resources =
            update_rows (λ r. r.id == id && r.app_id == app && is_null r.deleted_at)
              (λ r. record r { deleted_at = some t; updated_at = t }) db.resources;
      } =
        ground arith in
      subst (Sees b v) (sym e) (
        rw
          (other_updated (λ (s : Resource). s.app_id) b (λ s. s.id) (λ s. is_null s.deleted_at) id
            app (λ r. record r { deleted_at = some t; updated_at = t }) db.resources n (λ r. refl))
          k)

  pub insert_action-Sees : (r : Action) → r.app_id ≢ b → WriteKeeps (Sees b v) (insert_action r)
  unfolding insert_action
  insert_action-Sees r n db k a db' h =
      let e : db' ≡ record db { actions = db.actions ++ r ∷ [] } = ground arith in
      subst (Sees b v) (sym e) (rw (other_added (λ (s : Action). s.app_id) b db.actions r n) k)

  pub update_action-Sees :
      (app id : Uuid)
      → app ≢ b
      → (name : String) (metadata : Fields) (t : Time)
      → WriteKeeps (Sees b v) (
          update_action
            (λ r. r.id == id && r.app_id == app && is_null r.deleted_at)
            (λ r. record r { name = name; metadata = metadata; updated_at = t }))
  unfolding update_action
  update_action-Sees app id n name metadata t db k a db' h =
      let e : db' ≡ record db {
        actions =
            update_rows (λ r. r.id == id && r.app_id == app && is_null r.deleted_at)
              (λ r. record r { name = name; metadata = metadata; updated_at = t }) db.actions;
      } =
        ground arith in
      subst (Sees b v) (sym e) (
        rw
          (other_updated (λ (s : Action). s.app_id) b (λ s. s.id) (λ s. is_null s.deleted_at) id app
            (λ r. record r { name = name; metadata = metadata; updated_at = t }) db.actions n
            (λ r. refl))
          k)

  pub delete_action-Sees :
      (app id : Uuid)
      → app ≢ b
      → (t : Time)
      → WriteKeeps
          (Sees b v)
          (delete_action (λ r. r.id == id && r.app_id == app && is_null r.deleted_at) t)
  unfolding delete_action
  delete_action-Sees app id n t db k a db' h =
      let e : db' ≡ record db {
        actions =
            update_rows (λ r. r.id == id && r.app_id == app && is_null r.deleted_at)
              (λ r. record r { deleted_at = some t; updated_at = t }) db.actions;
      } =
        ground arith in
      subst (Sees b v) (sym e) (
        rw
          (other_updated (λ (s : Action). s.app_id) b (λ s. s.id) (λ s. is_null s.deleted_at) id app
            (λ r. record r { deleted_at = some t; updated_at = t }) db.actions n (λ r. refl))
          k)
