-- ===== src/System/UniqueKeys.antt =====
-- The unique indexes of api_keys, admin_api_keys and user_identities, as an invariant of the API.
pub mod Indexes
use open_aura.Prelude.{
  All, ◌≢◌, none, String, true, Bool-cases, inl, inr, str_eq, ◌∙◌, false≢true, ◌==◌, ◌&&◌, ◌≡◌, sym,
  subst, Bool, false, List, ◌∷◌, [], arith, ◌++◌, some,
}
use open_aura.Schema.{is_null, Db, Time, ApiKeyRow, AdminApiKeyRow, IdentityRow}
use open_aura.Schema.Constraints.{api_key_table, admin_api_key_table, identity_table}
use open_aura.Schema.Writes.{
  insert_app, update_app, delete_app, insert_tenant, update_tenant, delete_tenant, insert_user,
  update_user, delete_user, insert_role, update_role, delete_role, insert_resource, update_resource,
  delete_resource, insert_action, update_action, delete_action, insert_role_assignment,
  update_role_assignment, delete_role_assignment, insert_permission, delete_permission,
  insert_api_key, revoke_api_key, insert_admin_api_key, revoke_admin_api_key, insert_identity,
}
use open_aura.Sql.{update_rows, refuses_insert}
use open_aura.Sql.Unique.{NoClash, NoClash-append, NoClash-update_rows, accepted_row}
use open_aura.Effect.{Env, World}
use text.Mathlib.TextEquality.{eq_iff}
use open_aura.Effect.Keeps.{WriteKeeps, StableUnder}
use open_aura.System.Statements.{StatementsKeep}
use open_aura.System.Requests.{Write, run_all}
use open_aura.System.Invariants.{run_all-Keeps_any}
use open_aura.System.UniqueKeys.Indexes.{KeepsIndexes, indexes_keep}

-- Every row is related to every later one.
abbrev pub Pairwise : {R : Type 0} → (R → R → Type 0) → List R → Type 0
Pairwise D [] = Unit
Pairwise D (r ∷ rows) = All (D r) rows × Pairwise D rows

abbrev pub OtherHash : ApiKeyRow → ApiKeyRow → Type 0
OtherHash r s = r.key_hash ≢ s.key_hash

abbrev pub OtherAdminHash : AdminApiKeyRow → AdminApiKeyRow → Type 0
OtherAdminHash r s = r.key_hash ≢ s.key_hash

abbrev pub OtherIdentity : IdentityRow → IdentityRow → Type 0
OtherIdentity r s =
    r.deleted_at ≡ none
    → s.deleted_at ≡ none
    → r.app_id ≡ s.app_id
    → r.provider ≡ s.provider
    → r.provider_subject ≢ s.provider_subject

-- No two API keys and no two admin keys have the same hash, and no two active identities of an app
-- have the same provider and subject.
pub record HasUniqueKeys (db : Db) : Type 0 where
  pub app_keys : Pairwise OtherHash db.api_keys
  pub admin_keys : Pairwise OtherAdminHash db.admin_api_keys
  pub identities : Pairwise OtherIdentity db.user_identities

module _ {R : Type 0} (clash : R → R → Bool) (D : R → R → Type 0) where
  NoClash-Pairwise :
      ((r s : R) → clash s r ≡ false → D r s)
      → (rows : List R) → NoClash clash rows
      → Pairwise D rows
  NoClash-Pairwise k [] h = tt
  NoClash-Pairwise k (r ∷ rows) h = (apart rows h.0, NoClash-Pairwise k rows h.1)
    where
      apart : (xs : List R) → All (λ s. clash s r ≡ false) xs → All (D r) xs
      apart [] h = tt
      apart (x ∷ xs) h = (k r x h.0, apart xs h.1)

  Pairwise-NoClash :
      ((r s : R) → D r s → clash s r ≡ false)
      → (rows : List R) → Pairwise D rows
      → NoClash clash rows
  Pairwise-NoClash k [] h = tt
  Pairwise-NoClash k (r ∷ rows) h = (free rows h.0, Pairwise-NoClash k rows h.1)
    where
      free : (xs : List R) → All (D r) xs → All (λ s. clash s r ≡ false) xs
      free [] h = tt
      free (x ∷ xs) h = (k r x h.0, free xs h.1)

other_text : (s t : String) → str_eq t s ≡ false → s ≢ t
other_text s t h e = false≢true (sym h ∙ (eq_iff t s).1 (sym e))

text_differs : (s t : String) → s ≢ t → str_eq t s ≡ false
text_differs s t n = elim (Bool-cases (str_eq t s)) [
  | inl e ↦ absurd (n (sym ((eq_iff t s).0 e)))
  | inr e ↦ e
]

no_clash-OtherIdentity : (r s : IdentityRow) → identity_table.clash s r ≡ false → OtherIdentity r s
no_clash-OtherIdentity r s h a b e p q = false≢true (sym h ∙ clashes)
  where
    clashes : identity_table.clash s r ≡ true
    clashes =
        let provider = (eq_iff s.provider r.provider).1 (sym p) in
        let subject = (eq_iff s.provider_subject r.provider_subject).1 (sym q) in ground arith

OtherIdentity-no_clash : (r s : IdentityRow) → OtherIdentity r s → identity_table.clash s r ≡ false
OtherIdentity-no_clash r s n = elim (Bool-cases (identity_table.clash s r)) [
  | inr e ↦ e
  | inl e ↦
      let provider : str_eq s.provider r.provider ≡ true = ground arith in
      let subject : str_eq s.provider_subject r.provider_subject ≡ true = ground arith in
      absurd (
        n (ground arith) (ground arith) (ground arith)
          (sym ((eq_iff s.provider r.provider).0 provider))
          (sym ((eq_iff s.provider_subject r.provider_subject).0 subject)))
]

KeepsIndexes-HasUniqueKeys : (db : Db) → KeepsIndexes db → HasUniqueKeys db
KeepsIndexes-HasUniqueKeys db k = record {
  app_keys =
      NoClash-Pairwise _ _ (λ r s h. other_text r.key_hash s.key_hash h) db.api_keys k.app_keys;
  admin_keys =
      NoClash-Pairwise _ _ (λ r s h. other_text r.key_hash s.key_hash h) db.admin_api_keys
        k.admin_keys;
  identities = NoClash-Pairwise _ _ no_clash-OtherIdentity db.user_identities k.identities;
}

HasUniqueKeys-KeepsIndexes : (db : Db) → HasUniqueKeys db → KeepsIndexes db
HasUniqueKeys-KeepsIndexes db k = record {
  app_keys =
      Pairwise-NoClash _ _ (λ r s n. text_differs r.key_hash s.key_hash n) db.api_keys k.app_keys;
  admin_keys =
      Pairwise-NoClash _ _ (λ r s n. text_differs r.key_hash s.key_hash n) db.admin_api_keys
        k.admin_keys;
  identities = Pairwise-NoClash _ _ OtherIdentity-no_clash db.user_identities k.identities;
}

-- What keeps the tables acceptable to the unique indexes keeps the keys unique.
pub keeps_unique :
    (env : Env) (run : World → World) (w : World)
    → ((P : Db → Type 0)
        → StatementsKeep (λ app. Unit) P
        → StableUnder P env
        → P w.db
        → P (run w).db)
    → StableUnder HasUniqueKeys env
    → HasUniqueKeys w.db
    → HasUniqueKeys (run w).db
keeps_unique env run w keeps st h = KeepsIndexes-HasUniqueKeys (run w).db (
    keeps KeepsIndexes indexes_keep
      (λ n db k.
        HasUniqueKeys-KeepsIndexes (env.others n db) (st n db (KeepsIndexes-HasUniqueKeys db k)))
      (HasUniqueKeys-KeepsIndexes w.db h))

-- From a database with unique keys, any writes of the API, in any order, with any faults and with any
-- interference that keeps the keys unique, lead to a database with unique keys: no two API keys and no
-- two admin keys have one hash, and no two active identities of an app have one provider and subject.
pub run_all-HasUniqueKeys :
    (qs : List Write) (env : Env) (w : World)
    → StableUnder HasUniqueKeys env
    → HasUniqueKeys w.db
    → HasUniqueKeys (run_all qs env w).db
run_all-HasUniqueKeys qs env w =
    keeps_unique env (run_all qs env) w (λ P k. run_all-Keeps_any P k qs env w)
