-- ===== src/System/Consistency/Owners.antt =====
-- The statements on apps, tenants and users keep the consistency.
use open_aura.Prelude.{◌≡◌, refl, sym, subst, ◌∙◌, Bool, some, [], ◌∷◌, ◌++◌, arith}
use open_aura.Schema.{Time, Db, App, Tenant, User}
use open_aura.Schema.Writes.{
  insert_app, update_app, delete_app, insert_tenant, update_tenant, delete_tenant, insert_user,
  update_user, delete_user,
}
use open_aura.Schema.Laws.{app_of-append, app_of-update_rows}
use open_aura.Sql.{update_rows}
use open_aura.Effect.{ok}
use open_aura.Effect.Keeps.{WriteKeeps}
use open_aura.System.Consistency.{IsConsistent}
use open_aura.System.Consistency.Extension.{Extends, Extends-assignments, Extends-permissions}

module _ (r : App) (db : Db) (a : App) (db' : Db) where
  insert_app-db : insert_app r db ≡ ok (a, db') → db' ≡ record db { apps = db.apps ++ r ∷ [] }
  unfolding insert_app
  insert_app-db h = ground arith

pub insert_app-IsConsistent : (r : App) → WriteKeeps IsConsistent (insert_app r)
insert_app-IsConsistent r db k a db' h =
    subst IsConsistent (sym (insert_app-db r db a db' h)) (record {
      assignments = Extends-assignments db _ e db.role_assignments k.assignments;
      permissions = Extends-permissions db _ e db.permissions k.permissions;
    })
  where
    e : Extends db (record db { apps = db.apps ++ r ∷ [] })
    e = record {
      users = λ id x h. h;
      roles = λ id x h. h;
      tenants = λ id x h. h;
      resources = λ id x h. h;
      actions = λ id x h. h;
    }

-- An UPDATE of apps that leaves the ids and the apps alone.
module _ (p : App → Bool) (f : App → App) (db : Db) (ids : (r : App) → (f r).id ≡ r.id)
    (k : IsConsistent db) where
  app_rewritten-IsConsistent : IsConsistent (record db { apps = update_rows p f db.apps })
  app_rewritten-IsConsistent = record {
    assignments = Extends-assignments db _ e db.role_assignments k.assignments;
    permissions = Extends-permissions db _ e db.permissions k.permissions;
  }
    where
      e : Extends db (record db { apps = update_rows p f db.apps })
      e = record {
        users = λ id x h. h;
        roles = λ id x h. h;
        tenants = λ id x h. h;
        resources = λ id x h. h;
        actions = λ id x h. h;
      }

module _ (p : App → Bool) (f : App → App) (db : Db) (a : App) (db' : Db) where
  update_app-db :
      update_app p f db ≡ ok (a, db') → db' ≡ record db { apps = update_rows p f db.apps }
  unfolding update_app
  update_app-db h = ground arith

pub update_app-IsConsistent :
    (p : App → Bool) (f : App → App)
    → ((r : App) → (f r).id ≡ r.id)
    → WriteKeeps IsConsistent (update_app p f)
update_app-IsConsistent p f ids db k a db' h =
    subst IsConsistent (sym (update_app-db p f db a db' h))
      (app_rewritten-IsConsistent p f db ids k)

pub delete_app-IsConsistent :
    (p : App → Bool) (now : Time) → WriteKeeps IsConsistent (delete_app p now)
unfolding delete_app
delete_app-IsConsistent p now db k a db' h = subst IsConsistent (ground arith) (
    app_rewritten-IsConsistent p (λ r. record r { deleted_at = some now; updated_at = now }) db
      (λ r. refl) k)

module _ (r : Tenant) (db : Db) (a : Tenant) (db' : Db) where
  insert_tenant-db :
      insert_tenant r db ≡ ok (a, db') → db' ≡ record db { tenants = db.tenants ++ r ∷ [] }
  unfolding insert_tenant
  insert_tenant-db h = ground arith

pub insert_tenant-IsConsistent : (r : Tenant) → WriteKeeps IsConsistent (insert_tenant r)
insert_tenant-IsConsistent r db k a db' h =
    subst IsConsistent (sym (insert_tenant-db r db a db' h)) (record {
      assignments = Extends-assignments db _ e db.role_assignments k.assignments;
      permissions = Extends-permissions db _ e db.permissions k.permissions;
    })
  where
    e : Extends db (record db { tenants = db.tenants ++ r ∷ [] })
    e = record {
      users = λ id x h. h;
      roles = λ id x h. h;
      tenants = λ id x h. app_of-append _ _ id db.tenants (r ∷ []) h;
      resources = λ id x h. h;
      actions = λ id x h. h;
    }

-- An UPDATE of tenants that leaves the ids and the apps alone.
module _ (p : Tenant → Bool) (f : Tenant → Tenant) (db : Db) (ids : (r : Tenant) → (f r).id ≡ r.id)
    (apps : (r : Tenant) → (f r).app_id ≡ r.app_id) (k : IsConsistent db) where
  tenant_rewritten-IsConsistent : IsConsistent (record db { tenants = update_rows p f db.tenants })
  tenant_rewritten-IsConsistent = record {
    assignments = Extends-assignments db _ e db.role_assignments k.assignments;
    permissions = Extends-permissions db _ e db.permissions k.permissions;
  }
    where
      e : Extends db (record db { tenants = update_rows p f db.tenants })
      e = record {
        users = λ id x h. h;
        roles = λ id x h. h;
        tenants = λ id x h. app_of-update_rows _ _ id p f db.tenants ids apps ∙ h;
        resources = λ id x h. h;
        actions = λ id x h. h;
      }

module _ (p : Tenant → Bool) (f : Tenant → Tenant) (db : Db) (a : Tenant) (db' : Db) where
  update_tenant-db :
      update_tenant p f db ≡ ok (a, db') → db' ≡ record db { tenants = update_rows p f db.tenants }
  unfolding update_tenant
  update_tenant-db h = ground arith

pub update_tenant-IsConsistent :
    (p : Tenant → Bool) (f : Tenant → Tenant)
    → ((r : Tenant) → (f r).id ≡ r.id)
    → ((r : Tenant) → (f r).app_id ≡ r.app_id)
    → WriteKeeps IsConsistent (update_tenant p f)
update_tenant-IsConsistent p f ids apps db k a db' h =
    subst IsConsistent (sym (update_tenant-db p f db a db' h))
      (tenant_rewritten-IsConsistent p f db ids apps k)

pub delete_tenant-IsConsistent :
    (p : Tenant → Bool) (now : Time) → WriteKeeps IsConsistent (delete_tenant p now)
unfolding delete_tenant
delete_tenant-IsConsistent p now db k a db' h = subst IsConsistent (ground arith) (
    tenant_rewritten-IsConsistent p (λ r. record r { deleted_at = some now; updated_at = now }) db
      (λ r. refl) (λ r. refl) k)

module _ (r : User) (db : Db) (a : User) (db' : Db) where
  insert_user-db : insert_user r db ≡ ok (a, db') → db' ≡ record db { users = db.users ++ r ∷ [] }
  unfolding insert_user
  insert_user-db h = ground arith

pub insert_user-IsConsistent : (r : User) → WriteKeeps IsConsistent (insert_user r)
insert_user-IsConsistent r db k a db' h =
    subst IsConsistent (sym (insert_user-db r db a db' h)) (record {
      assignments = Extends-assignments db _ e db.role_assignments k.assignments;
      permissions = Extends-permissions db _ e db.permissions k.permissions;
    })
  where
    e : Extends db (record db { users = db.users ++ r ∷ [] })
    e = record {
      users = λ id x h. app_of-append _ _ id db.users (r ∷ []) h;
      roles = λ id x h. h;
      tenants = λ id x h. h;
      resources = λ id x h. h;
      actions = λ id x h. h;
    }

-- An UPDATE of users that leaves the ids and the apps alone.
module _ (p : User → Bool) (f : User → User) (db : Db) (ids : (r : User) → (f r).id ≡ r.id)
    (apps : (r : User) → (f r).app_id ≡ r.app_id) (k : IsConsistent db) where
  user_rewritten-IsConsistent : IsConsistent (record db { users = update_rows p f db.users })
  user_rewritten-IsConsistent = record {
    assignments = Extends-assignments db _ e db.role_assignments k.assignments;
    permissions = Extends-permissions db _ e db.permissions k.permissions;
  }
    where
      e : Extends db (record db { users = update_rows p f db.users })
      e = record {
        users = λ id x h. app_of-update_rows _ _ id p f db.users ids apps ∙ h;
        roles = λ id x h. h;
        tenants = λ id x h. h;
        resources = λ id x h. h;
        actions = λ id x h. h;
      }

module _ (p : User → Bool) (f : User → User) (db : Db) (a : User) (db' : Db) where
  update_user-db :
      update_user p f db ≡ ok (a, db') → db' ≡ record db { users = update_rows p f db.users }
  unfolding update_user
  update_user-db h = ground arith

pub update_user-IsConsistent :
    (p : User → Bool) (f : User → User)
    → ((r : User) → (f r).id ≡ r.id)
    → ((r : User) → (f r).app_id ≡ r.app_id)
    → WriteKeeps IsConsistent (update_user p f)
update_user-IsConsistent p f ids apps db k a db' h =
    subst IsConsistent (sym (update_user-db p f db a db' h))
      (user_rewritten-IsConsistent p f db ids apps k)

pub delete_user-IsConsistent :
    (p : User → Bool) (now : Time) → WriteKeeps IsConsistent (delete_user p now)
unfolding delete_user
delete_user-IsConsistent p now db k a db' h = subst IsConsistent (ground arith) (
    user_rewritten-IsConsistent p (λ r. record r { deleted_at = some now; updated_at = now }) db
      (λ r. refl) (λ r. refl) k)
