-- ===== src/System/Consistency/Links.antt =====
-- The statements on assignments and permissions keep the consistency.
use open_aura.Prelude.{
  ℕ, ◌≡◌, sym, subst, ◌==◌, or_left, or_right, Option-cases, inl, inr, Bool, true, false, Option,
  none, some, [], ◌∷◌, ◌++◌, All-append, arith, any,
}
use open_aura.Schema.{Uuid, Time, Db, RoleAssignment, Permission}
use open_aura.Schema.Constraints.{assignment_mismatch, permission_mismatch, distinct}
use open_aura.Schema.Writes.{
  insert_role_assignment, delete_role_assignment, update_role_assignment, insert_permission,
  delete_permission,
}
use open_aura.Schema.Laws.{app_of_row}
use open_aura.Sql.{update_rows, select_one}
use open_aura.Store.{DbError, no_rows}
use open_aura.Sql.Laws.{All-update_rows}
use open_aura.Effect.{Result, ok, err}
use open_aura.Effect.Keeps.{WriteKeeps}
use open_aura.System.Consistency.{AssignmentInApp, PermissionInApp, IsConsistent}

pub not_distinct : (o : Option Uuid) (x : Uuid) → distinct (some x) o ≡ false → o ≡ some x
not_distinct none x h = cc
not_distinct (some y) x h = ground arith

-- What the trigger and the foreign keys let through.
checked-AssignmentInApp :
    (db : Db) (a : RoleAssignment)
    → assignment_mismatch db a ≡ false
    → any (λ x. x.id == a.user_id) db.users ≡ true
    → AssignmentInApp db a
unfolding assignment_mismatch
checked-AssignmentInApp db a m h =
    let (x, e) = app_of_row _ (λ r. r.app_id) a.user_id db.users h in
    let m' = rw e at m in
    (x, e, not_distinct _ x (or_left _ _ m'), not_distinct _ x (or_right _ _ m'))

insert_role_assignment-checked :
    (r : RoleAssignment) (db : Db) (a : RoleAssignment) (db' : Db)
    → insert_role_assignment r db ≡ ok (a, db')
    → (assignment_mismatch db r ≡ false)
      × (any (λ x. x.id == r.user_id) db.users ≡ true)
      × (db' ≡ record db { role_assignments = db.role_assignments ++ r ∷ [] })
unfolding insert_role_assignment
insert_role_assignment-checked r db a db' h = ground arith

pub insert_role_assignment-IsConsistent :
    (r : RoleAssignment) → WriteKeeps IsConsistent (insert_role_assignment r)
insert_role_assignment-IsConsistent r db k a db' h =
    let (m, u, e) = insert_role_assignment-checked r db a db' h in
    subst IsConsistent (sym e) (record {
      assignments =
          All-append (AssignmentInApp db) db.role_assignments (r ∷ []) k.assignments
            (checked-AssignmentInApp db r m u, tt);
      permissions = k.permissions;
    })

delete_role_assignment-db :
    (p : RoleAssignment → Bool) (now : Time) (db : Db) (n : ℕ) (db' : Db)
    → delete_role_assignment p now db ≡ ok (n, db')
    → db' ≡ record db {
      role_assignments =
          update_rows p
            (λ r. record r { deleted_at = some now; updated_at = now })
            db.role_assignments;
    }
unfolding delete_role_assignment
delete_role_assignment-db p now db n db' h = ground arith

pub delete_role_assignment-IsConsistent :
    (p : Db → RoleAssignment → Bool) (now : Time)
    → WriteKeeps IsConsistent (λ db. delete_role_assignment (p db) now db)
delete_role_assignment-IsConsistent p now db k n db' h =
    subst IsConsistent (sym (delete_role_assignment-db (p db) now db n db' h)) (record {
      assignments =
          All-update_rows (AssignmentInApp db) (p db) _ db.role_assignments (λ r q _. q)
            k.assignments;
      permissions = k.permissions;
    })

update_role_assignment-checked :
    (p : RoleAssignment → Bool) (f : RoleAssignment → RoleAssignment) (db : Db) (a : RoleAssignment)
    (db' : Db)
    → update_role_assignment p f db ≡ ok (a, db')
    → (assignment_mismatch db a ≡ false)
      × (any (λ x. x.id == a.user_id) db.users ≡ true)
      × (db' ≡ record db { role_assignments = update_rows p f db.role_assignments })
      × ((r : RoleAssignment) × (a ≡ f r))
unfolding update_role_assignment
update_role_assignment-checked p f db a db' h =
    elim (Option-cases (select_one p db.role_assignments)) [
      | inl e ↦ absurd (none_fails (rw (e, update_role_assignment) at h))
      | inr (r, e) ↦
          let h' = rw (e, update_role_assignment) at h in
          (ground arith, ground arith, ground arith, (r, ground arith))
    ]
  where
    none_fails : ◌≡◌ {A = Result DbError (RoleAssignment × Db)} (err no_rows) (ok (a, db')) → ⊥
    none_fails q = cc

-- An UPDATE that writes the same user, role and tenant into each row.
pub update_role_assignment-IsConsistent :
    (p : Db → RoleAssignment → Bool) (f : RoleAssignment → RoleAssignment)
    → ((r s : RoleAssignment) → (f r).user_id ≡ (f s).user_id)
    → ((r s : RoleAssignment) → (f r).role_id ≡ (f s).role_id)
    → ((r s : RoleAssignment) → (f r).tenant_id ≡ (f s).tenant_id)
    → WriteKeeps IsConsistent (λ db. update_role_assignment (p db) f db)
update_role_assignment-IsConsistent p f us ro te db k a db' h =
    let (m, u, e, (r0, ea)) = update_role_assignment-checked (p db) f db a db' h in
    let (x, hu, hr, ht) = checked-AssignmentInApp db a m u in
    subst IsConsistent (sym e) (record {
      assignments =
          All-update_rows (AssignmentInApp db) (p db) f db.role_assignments
            (λ r q _. (x, rw (us r r0, ← ea) hu, rw (ro r r0, ← ea) hr, rw (te r r0, ← ea) ht))
            k.assignments;
      permissions = k.permissions;
    })

-- What the trigger and the foreign keys let through.
checked-PermissionInApp :
    (db : Db) (a : Permission)
    → permission_mismatch db a ≡ false
    → any (λ x. x.id == a.role_id) db.roles ≡ true
    → PermissionInApp db a
unfolding permission_mismatch
checked-PermissionInApp db a m h =
    let (x, e) = app_of_row _ (λ r. r.app_id) a.role_id db.roles h in
    let m' = rw e at m in
    (x, e, not_distinct _ x (or_left _ _ m'), not_distinct _ x (or_right _ _ m'))

insert_permission-checked :
    (r : Permission) (db : Db) (a : Permission) (db' : Db)
    → insert_permission r db ≡ ok (a, db')
    → (permission_mismatch db r ≡ false)
      × (any (λ x. x.id == r.role_id) db.roles ≡ true)
      × (db' ≡ record db { permissions = db.permissions ++ r ∷ [] })
unfolding insert_permission
insert_permission-checked r db a db' h = ground arith

pub insert_permission-IsConsistent :
    (r : Permission) → WriteKeeps IsConsistent (insert_permission r)
insert_permission-IsConsistent r db k a db' h =
    let (m, u, e) = insert_permission-checked r db a db' h in
    subst IsConsistent (sym e) (record {
      assignments = k.assignments;
      permissions =
          All-append (PermissionInApp db) db.permissions (r ∷ []) k.permissions
            (checked-PermissionInApp db r m u, tt);
    })

delete_permission-db :
    (p : Permission → Bool) (now : Time) (db : Db) (n : ℕ) (db' : Db)
    → delete_permission p now db ≡ ok (n, db')
    → db' ≡ record db {
      permissions =
          update_rows p (λ r. record r { deleted_at = some now; updated_at = now }) db.permissions;
    }
unfolding delete_permission
delete_permission-db p now db n db' h = ground arith

pub delete_permission-IsConsistent :
    (p : Db → Permission → Bool) (now : Time)
    → WriteKeeps IsConsistent (λ db. delete_permission (p db) now db)
delete_permission-IsConsistent p now db k n db' h =
    subst IsConsistent (sym (delete_permission-db (p db) now db n db' h)) (record {
      assignments = k.assignments;
      permissions =
          All-update_rows (PermissionInApp db) (p db) _ db.permissions (λ r q _. q) k.permissions;
    })
