-- ===== src/UserIdentity/Repository.antt =====
-- internal/useridentity/repository.go
use open_aura.Prelude.{
  Bool, not, ◌&&◌, ◌||◌, Option, none, some, String, List, [], ◌∷◌, ◌==◌, str_eq, if◌then◌else◌,
}
use open_aura.Text.{trim_space, to_lower, contains}
use open_aura.Schema.{Uuid, nil_uuid, is_null, User, IdentityRow}
use open_aura.Schema.Writes.{insert_identity}
use open_aura.Sql.{select_one}
use open_aura.Store.{Err, invalid_input, invalid_email, map_read_error, map_write_error}
use open_aura.Effect
use open_aura.Effect.{
  Env, M, Result, ok, err, pure, raise, lift, asks, map_err, ◌>>=◌, ◌>>◌, new_uuid, query, exec,
  row,
}
use open_aura.Httpx.{require_metadata}
use mathlib.Core.Option
use open_aura.UserIdentity.{
  Identity, CreateInput, PasswordCredential, provider_password, or_blank, of_row,
}

-- the subject of an identity that can be stored; a password identity needs a secret
unfoldable pub checked_subject : Uuid → CreateInput → M Err String
checked_subject app input = do
  lower ← asks (λ env. env.unicode_lower)
  let subject = trim_space input.provider_subject
  if app == nil_uuid
      then raise (invalid_input "app_id is required")
      else if input.user_id == nil_uuid
      then raise (invalid_input "user_id is required")
      else if str_eq input.provider ""
      then raise (invalid_input "provider is required")
      else if str_eq subject ""
      then raise (invalid_input "provider_subject is required")
      else if str_eq input.provider provider_password
      then (if str_eq input.secret_hash ""
          then raise (invalid_input "secret_hash is required for password identities")
          else pure (to_lower lower subject))
      else pure subject

-- `create`, which Create calls on the pool and CreateTx inside a transaction
unfoldable pub create : Uuid → CreateInput → M Err Identity
unfolding checked_subject of_row
create app input = do
  subject ← checked_subject app input
  metadata ← require_metadata input.metadata
  t ← Effect.now
  id ← new_uuid
  r ← map_err map_write_error (
      exec (
        insert_identity (record {
          id = id;
          app_id = app;
          user_id = input.user_id;
          provider = input.provider;
          provider_subject = subject;
          secret_hash = (if str_eq input.secret_hash "" then none else some input.secret_hash);
          metadata = metadata;
          created_at = t;
          updated_at = t;
          deleted_at = none;
        })))
  pure (of_row r)

-- the active password identity of an email
abbrev pub password_row : Uuid → String → IdentityRow → Bool
password_row app email i =
    i.app_id == app
    && str_eq i.provider provider_password
    && str_eq i.provider_subject email
    && is_null i.deleted_at

abbrev pub active_user : Uuid → User → Bool
active_user id u = u.id == id && is_null u.deleted_at

-- FROM user_identities i INNER JOIN users u ON u.id = i.user_id
unfoldable pub select_credential :
    Uuid → String → List User → List IdentityRow → Option PasswordCredential
select_credential app email users [] = none
select_credential app email users (i ∷ rows) =
    let rest = select_credential app email users rows in
    if password_row app email i
    then elim (select_one (active_user i.user_id) users) [
      | none ↦ rest
      | some u ↦ some (record { user = u; secret_hash = or_blank i.secret_hash })
    ]
    else rest

-- GetPasswordByEmail
unfoldable pub get_password_by_email : Uuid → String → M Err PasswordCredential
get_password_by_email app email = do
  lower ← asks (λ env. env.unicode_lower)
  let email' = trim_space (to_lower lower email)
  if str_eq email' "" || not (contains email' "@")
      then raise invalid_email
      else map_err map_read_error
          (query (λ db. row (select_credential app email' db.users db.user_identities)))

-- GetByProviderSubject
unfoldable pub get_by_provider_subject : Uuid → String → String → M Err Identity
unfolding of_row
get_by_provider_subject app provider subject = do
  lower ← asks (λ env. env.unicode_lower)
  let trimmed = trim_space subject
  let subject' = if str_eq provider provider_password then to_lower lower trimmed else trimmed
  if app == nil_uuid || str_eq provider "" || str_eq subject' ""
      then raise (invalid_input "app_id, provider, and provider_subject are required")
      else map_err map_read_error (
          query (λ db. row (
            Option.map of_row (
              select_one
                (λ i.
                  i.app_id == app
                  && str_eq i.provider provider
                  && str_eq i.provider_subject subject'
                  && is_null i.deleted_at)
                db.user_identities))))
