-- ===== src/System/Consistency/Names.antt =====
-- The statements on roles, resources and actions keep the consistency.
use open_aura.Prelude.{◌≡◌, refl, sym, subst, ◌∙◌, Bool, some, String, [], ◌∷◌, ◌++◌, arith}
use open_aura.Json.{Json}
use open_aura.Schema.{Time, Db, Role, Resource, Action}
use open_aura.Schema.Writes.{
  insert_role, update_role, delete_role, insert_resource, update_resource, delete_resource,
  insert_action, update_action, delete_action,
}
use open_aura.Schema.Laws.{app_of-append, app_of-update_rows}
use open_aura.Sql.{update_rows}
use open_aura.Effect.{ok}
use open_aura.Effect.Keeps.{WriteKeeps}
use open_aura.System.Consistency.{IsConsistent}
use open_aura.System.Consistency.Extension.{Extends, Extends-assignments, Extends-permissions}

module _ (json_text : Json → String) (r : Role) (db : Db) (a : Role) (db' : Db) where
  insert_role-db :
      insert_role json_text r db ≡ ok (a, db') → db' ≡ record db { roles = db.roles ++ r ∷ [] }
  unfolding insert_role
  insert_role-db h = ground arith

pub insert_role-IsConsistent :
    (json_text : Json → String) (r : Role) → WriteKeeps IsConsistent (insert_role json_text r)
insert_role-IsConsistent json_text r db k a db' h =
    subst IsConsistent (sym (insert_role-db json_text r db a db' h)) (record {
      assignments = Extends-assignments db _ e db.role_assignments k.assignments;
      permissions = Extends-permissions db _ e db.permissions k.permissions;
    })
  where
    e : Extends db (record db { roles = db.roles ++ r ∷ [] })
    e = record {
      users = λ id x h. h;
      roles = λ id x h. app_of-append _ _ id db.roles (r ∷ []) h;
      tenants = λ id x h. h;
      resources = λ id x h. h;
      actions = λ id x h. h;
    }

-- An UPDATE of roles that leaves the ids and the apps alone.
module _ (p : Role → Bool) (f : Role → Role) (db : Db) (ids : (r : Role) → (f r).id ≡ r.id)
    (apps : (r : Role) → (f r).app_id ≡ r.app_id) (k : IsConsistent db) where
  role_rewritten-IsConsistent : IsConsistent (record db { roles = update_rows p f db.roles })
  role_rewritten-IsConsistent = record {
    assignments = Extends-assignments db _ e db.role_assignments k.assignments;
    permissions = Extends-permissions db _ e db.permissions k.permissions;
  }
    where
      e : Extends db (record db { roles = update_rows p f db.roles })
      e = record {
        users = λ id x h. h;
        roles = λ id x h. app_of-update_rows _ _ id p f db.roles ids apps ∙ h;
        tenants = λ id x h. h;
        resources = λ id x h. h;
        actions = λ id x h. h;
      }

module _ (json_text : Json → String) (p : Role → Bool) (f : Role → Role) (db : Db) (a : Role)
    (db' : Db) where
  update_role-db :
      update_role json_text p f db ≡ ok (a, db')
      → db' ≡ record db { roles = update_rows p f db.roles }
  unfolding update_role
  update_role-db h = ground arith

pub update_role-IsConsistent :
    (json_text : Json → String) (p : Role → Bool) (f : Role → Role)
    → ((r : Role) → (f r).id ≡ r.id)
    → ((r : Role) → (f r).app_id ≡ r.app_id)
    → WriteKeeps IsConsistent (update_role json_text p f)
update_role-IsConsistent json_text p f ids apps db k a db' h =
    subst IsConsistent (sym (update_role-db json_text p f db a db' h))
      (role_rewritten-IsConsistent p f db ids apps k)

pub delete_role-IsConsistent :
    (p : Role → Bool) (now : Time) → WriteKeeps IsConsistent (delete_role p now)
unfolding delete_role
delete_role-IsConsistent p now db k a db' h = subst IsConsistent (ground arith) (
    role_rewritten-IsConsistent p (λ r. record r { deleted_at = some now; updated_at = now }) db
      (λ r. refl) (λ r. refl) k)

module _ (r : Resource) (db : Db) (a : Resource) (db' : Db) where
  insert_resource-db :
      insert_resource r db ≡ ok (a, db') → db' ≡ record db { resources = db.resources ++ r ∷ [] }
  unfolding insert_resource
  insert_resource-db h = ground arith

pub insert_resource-IsConsistent : (r : Resource) → WriteKeeps IsConsistent (insert_resource r)
insert_resource-IsConsistent r db k a db' h =
    subst IsConsistent (sym (insert_resource-db r db a db' h)) (record {
      assignments = Extends-assignments db _ e db.role_assignments k.assignments;
      permissions = Extends-permissions db _ e db.permissions k.permissions;
    })
  where
    e : Extends db (record db { resources = db.resources ++ r ∷ [] })
    e = record {
      users = λ id x h. h;
      roles = λ id x h. h;
      tenants = λ id x h. h;
      resources = λ id x h. app_of-append _ _ id db.resources (r ∷ []) h;
      actions = λ id x h. h;
    }

-- An UPDATE of resources that leaves the ids and the apps alone.
module _ (p : Resource → Bool) (f : Resource → Resource) (db : Db)
    (ids : (r : Resource) → (f r).id ≡ r.id) (apps : (r : Resource) → (f r).app_id ≡ r.app_id)
    (k : IsConsistent db) where
  resource_rewritten-IsConsistent :
      IsConsistent (record db { resources = update_rows p f db.resources })
  resource_rewritten-IsConsistent = record {
    assignments = Extends-assignments db _ e db.role_assignments k.assignments;
    permissions = Extends-permissions db _ e db.permissions k.permissions;
  }
    where
      e : Extends db (record db { resources = update_rows p f db.resources })
      e = record {
        users = λ id x h. h;
        roles = λ id x h. h;
        tenants = λ id x h. h;
        resources = λ id x h. app_of-update_rows _ _ id p f db.resources ids apps ∙ h;
        actions = λ id x h. h;
      }

module _ (p : Resource → Bool) (f : Resource → Resource) (db : Db) (a : Resource) (db' : Db) where
  update_resource-db :
      update_resource p f db ≡ ok (a, db')
      → db' ≡ record db { resources = update_rows p f db.resources }
  unfolding update_resource
  update_resource-db h = ground arith

pub update_resource-IsConsistent :
    (p : Resource → Bool) (f : Resource → Resource)
    → ((r : Resource) → (f r).id ≡ r.id)
    → ((r : Resource) → (f r).app_id ≡ r.app_id)
    → WriteKeeps IsConsistent (update_resource p f)
update_resource-IsConsistent p f ids apps db k a db' h =
    subst IsConsistent (sym (update_resource-db p f db a db' h))
      (resource_rewritten-IsConsistent p f db ids apps k)

pub delete_resource-IsConsistent :
    (p : Resource → Bool) (now : Time) → WriteKeeps IsConsistent (delete_resource p now)
unfolding delete_resource
delete_resource-IsConsistent p now db k a db' h = subst IsConsistent (ground arith) (
    resource_rewritten-IsConsistent p (λ r. record r { deleted_at = some now; updated_at = now }) db
      (λ r. refl) (λ r. refl) k)

module _ (r : Action) (db : Db) (a : Action) (db' : Db) where
  insert_action-db :
      insert_action r db ≡ ok (a, db') → db' ≡ record db { actions = db.actions ++ r ∷ [] }
  unfolding insert_action
  insert_action-db h = ground arith

pub insert_action-IsConsistent : (r : Action) → WriteKeeps IsConsistent (insert_action r)
insert_action-IsConsistent r db k a db' h =
    subst IsConsistent (sym (insert_action-db r db a db' h)) (record {
      assignments = Extends-assignments db _ e db.role_assignments k.assignments;
      permissions = Extends-permissions db _ e db.permissions k.permissions;
    })
  where
    e : Extends db (record db { actions = db.actions ++ r ∷ [] })
    e = record {
      users = λ id x h. h;
      roles = λ id x h. h;
      tenants = λ id x h. h;
      resources = λ id x h. h;
      actions = λ id x h. app_of-append _ _ id db.actions (r ∷ []) h;
    }

-- An UPDATE of actions that leaves the ids and the apps alone.
module _ (p : Action → Bool) (f : Action → Action) (db : Db) (ids : (r : Action) → (f r).id ≡ r.id)
    (apps : (r : Action) → (f r).app_id ≡ r.app_id) (k : IsConsistent db) where
  action_rewritten-IsConsistent : IsConsistent (record db { actions = update_rows p f db.actions })
  action_rewritten-IsConsistent = record {
    assignments = Extends-assignments db _ e db.role_assignments k.assignments;
    permissions = Extends-permissions db _ e db.permissions k.permissions;
  }
    where
      e : Extends db (record db { actions = update_rows p f db.actions })
      e = record {
        users = λ id x h. h;
        roles = λ id x h. h;
        tenants = λ id x h. h;
        resources = λ id x h. h;
        actions = λ id x h. app_of-update_rows _ _ id p f db.actions ids apps ∙ h;
      }

module _ (p : Action → Bool) (f : Action → Action) (db : Db) (a : Action) (db' : Db) where
  update_action-db :
      update_action p f db ≡ ok (a, db') → db' ≡ record db { actions = update_rows p f db.actions }
  unfolding update_action
  update_action-db h = ground arith

pub update_action-IsConsistent :
    (p : Action → Bool) (f : Action → Action)
    → ((r : Action) → (f r).id ≡ r.id)
    → ((r : Action) → (f r).app_id ≡ r.app_id)
    → WriteKeeps IsConsistent (update_action p f)
update_action-IsConsistent p f ids apps db k a db' h =
    subst IsConsistent (sym (update_action-db p f db a db' h))
      (action_rewritten-IsConsistent p f db ids apps k)

pub delete_action-IsConsistent :
    (p : Action → Bool) (now : Time) → WriteKeeps IsConsistent (delete_action p now)
unfolding delete_action
delete_action-IsConsistent p now db k a db' h = subst IsConsistent (ground arith) (
    action_rewritten-IsConsistent p (λ r. record r { deleted_at = some now; updated_at = now }) db
      (λ r. refl) (λ r. refl) k)
