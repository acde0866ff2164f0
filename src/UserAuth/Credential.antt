-- ===== src/UserAuth/Credential.antt =====
-- What GetPasswordByEmail of internal/useridentity finds.
use text.Mathlib.TextEquality.{eq_iff}
use open_aura.Prelude.{
  ◌≡◌, refl, subst, none, some, String, List, [], ◌∷◌, In, inl, inr, Bool-cases, Option-cases,
  arith,
}
use open_aura.Text.{trim_space, to_lower}
use open_aura.Schema.{Uuid, Db, IdentityRow}
use open_aura.Sql.{select_one}
use open_aura.Sql.Laws.{select_one_sound}
use open_aura.Effect.{Env}
use open_aura.UserIdentity.{PasswordCredential, provider_password, or_blank}
use open_aura.UserIdentity.Repository.{select_credential, password_row, active_user}

-- The email that Login looks up.
abbrev pub login_email : Env → String → String
login_email env email = trim_space (to_lower env.unicode_lower email)

-- An active password identity of the app, of an active user.
pub record IsCredential (db : Db) (app : Uuid) (email : String) (c : PasswordCredential)
    : Type 0 where
  pub ident : IdentityRow
  pub stored : In ident db.user_identities
  pub of_app : ident.app_id ≡ app
  pub provider : ident.provider ≡ provider_password
  pub subject : ident.provider_subject ≡ email
  pub active : ident.deleted_at ≡ none
  pub hash : c.secret_hash ≡ or_blank ident.secret_hash
  pub user_stored : In c.user db.users
  pub user_id : c.user.id ≡ ident.user_id
  pub user_active : c.user.deleted_at ≡ none

module _ (app : Uuid) (email : String) (db : Db) (c : PasswordCredential) where
  pub select_credential-IsCredential :
      (rows : List IdentityRow)
      → ((i : IdentityRow) → In i rows → In i db.user_identities)
      → select_credential app email db.users rows ≡ some c
      → IsCredential db app email c
  unfolding select_credential
  select_credential-IsCredential [] m h = absurd (ground arith)
  select_credential-IsCredential (i ∷ rows) m h = elim (Bool-cases (password_row app email i)) [
    | inr e ↦ select_credential-IsCredential rows (λ j n. m j (inr n)) (rw e at h)
    | inl e ↦ elim (Option-cases (select_one (active_user i.user_id) db.users)) [
      | inl n ↦ select_credential-IsCredential rows (λ j k. m j (inr k)) (rw (e, n) at h)
      | inr (u, n) ↦
          let (s, q) = select_one_sound (active_user i.user_id) db.users u n in
          let user : u ≡ c.user = ground arith in
          record {
            ident = i;
            stored = m i (inl refl);
            of_app = ground arith;
            provider = (eq_iff i.provider provider_password).0 (ground arith);
            subject = (eq_iff i.provider_subject email).0 (ground arith);
            active = ground arith;
            hash = ground arith;
            user_stored = subst (λ x. In x db.users) user s;
            user_id = subst (λ x. x.id ≡ i.user_id) user (ground arith);
            user_active = subst (λ x. x.deleted_at ≡ none) user (ground arith);
          }
    ]
  ]
