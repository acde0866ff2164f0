-- ===== src/UserAuth/Handler.antt =====
-- internal/userauth/handler.go. `body` is what DecodeJSON makes of the request's body.
use open_aura.Prelude.{ℕ, Option, none, some, String, ◌||◌, str_eq, if◌then◌else◌}
use open_aura.Json.{RawMessage, absent}
use open_aura.Text.{trim_space}
use open_aura.Schema.{User, Uuid}
use open_aura.Store.{
  Err, not_found, conflict, invalid_input, invalid_email, password_too_short, apple_email_required,
  invalid_apple_token, apple_audience, invalid_password, apple_not_configured, error_text,
}
use open_aura.Effect.{
  M, Result, ok, err, pure, raise, map_err, in_tx, begin_tx, open_tx, ◌>>=◌, ◌>>◌,
}
use open_aura.Httpx.{Request, Response, Handler, write_json, write_error, decode_json}
use open_aura.Auth.{require_app_id}
use open_aura.User.Repository as Users
use open_aura.UserIdentity.Repository as Identities
use open_aura.UserIdentity.{Identity, provider_password, provider_apple}
use open_aura.UserAuth.{
  Jwt, TokenConfig, TokenResponse, RegisterInput, LoginInput, AppleInput, AppleVerifier,
}
use open_aura.UserAuth.Password.{hash_password, check_password}
use open_aura.UserAuth.Token.{issue_token}
use open_aura.UserAuth.Apple.{apple_subject, normalize_apple_email}

-- Handler, with the JWT library that its methods call
pub record AuthHandler : Type 0 where
  pub token : TokenConfig
  pub jwt : Jwt
  pub apple : Option AppleVerifier

abbrev pub internal_error : {A : Type 0} → Response A
internal_error = write_error 500 "internal server error"

-- writeAuthError
unfoldable pub write_auth_error : {A : Type 0} → Err → Response A
write_auth_error password_too_short = write_error 400 (error_text password_too_short)
write_auth_error apple_email_required = write_error 400 (error_text apple_email_required)
write_auth_error (invalid_apple_token s) = write_error 401 (error_text (invalid_apple_token s))
write_auth_error apple_audience = write_error 401 (error_text apple_audience)
write_auth_error invalid_password = write_error 401 (error_text invalid_password)
write_auth_error apple_not_configured = write_error 501 (error_text apple_not_configured)
write_auth_error conflict = write_error 409 "user with this email already exists in app"
write_auth_error invalid_email = write_error 400 (error_text invalid_email)
write_auth_error (invalid_input s) = write_error 400 (error_text (invalid_input s))
write_auth_error e = internal_error

-- writeToken
unfoldable pub write_token : AuthHandler → ℕ → User → Handler TokenResponse
write_token h status u = do
  (token, expires_in) ← map_err (λ _. internal_error) (issue_token h.jwt h.token u)
  pure (
      write_json status
        (record { access_token = token; token_type = "Bearer"; expires_in = expires_in; user = u }))

-- the transaction of Register: the user and its password identity
unfoldable pub register_user : Uuid → String → String → RawMessage → M (Response TokenResponse) User
register_user app email hash metadata = do
  u ← map_err write_auth_error (Users.create app (record { email = email; metadata = metadata }))
  map_err write_auth_error (
      Identities.create app (record {
        user_id = u.id;
        provider = provider_password;
        provider_subject = email;
        secret_hash = hash;
        metadata = absent;
      }))
  pure u

-- Register
unfoldable pub register : AuthHandler → Request → Option RegisterInput → Handler TokenResponse
unfolding register_user write_token
register h r body = do
  app ← require_app_id r
  b ← decode_json body
  hash ← map_err write_auth_error (hash_password b.password)
  email ← map_err write_auth_error (Users.normalize_email b.email)
  u ← in_tx internal_error (register_user app email hash b.metadata)
  write_token h 201 u

-- the reply to a failed look-up of a credential
unfoldable pub login_error : {A : Type 0} → Err → Response A
unfolding write_auth_error
login_error not_found = write_error 401 (error_text invalid_password)
login_error invalid_email = write_error 401 (error_text invalid_password)
login_error e = write_auth_error e

-- Login
unfoldable pub login : AuthHandler → Request → Option LoginInput → Handler TokenResponse
unfolding login_error write_token
login h r body = do
  app ← require_app_id r
  b ← decode_json body
  if str_eq b.email "" || str_eq b.password ""
      then raise (write_error 400 "email and password are required")
      else do
        cred ← map_err login_error (Identities.get_password_by_email app b.email)
        map_err (λ _. write_error 401 (error_text invalid_password))
            (check_password cred.secret_hash b.password)
        write_token h 200 cred.user

-- `found` of an identity or a user, where a missing one is no error
abbrev pub or_missing : {A : Type 0} → Result Err A → Result (Response TokenResponse) (Option A)
or_missing (ok a) = ok (some a)
or_missing (err not_found) = ok none
or_missing (err e) = err (write_auth_error e)

unfoldable pub find : {A : Type 0} → M Err A → M (Response TokenResponse) (Option A)
unfolding write_auth_error
find m env w = let (r, w') = m env w in (or_missing r, w')

-- the user that was found, or else a new one, with the status of the reply
unfoldable pub known_or_new :
    Uuid → String → RawMessage → Option User → M (Response TokenResponse) (ℕ × User)
known_or_new app email metadata (some u) = pure (200, u)
known_or_new app email metadata none = do
  u ← map_err write_auth_error (Users.create app (record { email = email; metadata = metadata }))
  pure (201, u)

-- the statements of Apple's transaction: the user that was found for the email or else a new one, and
-- its Apple identity
unfoldable pub link_apple :
    Uuid → String → String → RawMessage → Option User → M (Response TokenResponse) (ℕ × User)
unfolding known_or_new
link_apple app email subject metadata known = do
  (status, u) ← known_or_new app email metadata known
  map_err write_auth_error (
      Identities.create app (record {
        user_id = u.id;
        provider = provider_apple;
        provider_subject = subject;
        secret_hash = "";
        metadata = metadata;
      }))
  pure (status, u)

-- the transaction of Apple: Begin, the look-up of the email on the pool and outside of the transaction,
-- and the statements of the transaction with Commit
unfoldable pub apple_transaction :
    Uuid → String → String → RawMessage → M (Response TokenResponse) (ℕ × User)
unfolding find link_apple
apple_transaction app email subject metadata = do
  begin_tx internal_error
  known ← find (Users.get_by_email app email)
  open_tx internal_error (link_apple app email subject metadata known)

-- what Apple does for the subject's identity, or for a subject that it does not know
unfoldable pub signed_in :
    AuthHandler → Uuid → AppleInput → String → String → Option Identity → Handler TokenResponse
unfolding apple_transaction write_token
signed_in h app b subject token_email (some i) = do
  u ← map_err write_auth_error (Users.get_by_id app i.user_id)
  write_token h 200 u
signed_in h app b subject token_email none = do
  raw ← map_err write_auth_error (normalize_apple_email token_email b.email)
  email ← map_err write_auth_error (Users.normalize_email raw)
  (status, u) ← apple_transaction app email subject b.metadata
  write_token h status u

-- what Apple does once the token is verified
unfoldable pub apple_user :
    AuthHandler → Uuid → AppleInput → String → String → Handler TokenResponse
unfolding find signed_in
apple_user h app b subject token_email = do
  ident ← find (Identities.get_by_provider_subject app provider_apple subject)
  signed_in h app b subject token_email ident

-- Apple
unfoldable pub apple : AuthHandler → Request → Option AppleInput → Handler TokenResponse
unfolding apple_user
apple h r body = do
  app ← require_app_id r
  elim h.apple [
    | none ↦ raise (write_error 501 (error_text apple_not_configured))
    | some verifier ↦ do
      b ← decode_json body
      if str_eq (trim_space b.identity_token) ""
          then raise (write_error 400 "identity_token is required")
          else do
            claims ← map_err write_auth_error (verifier.verify b.identity_token)
            subject ← map_err write_auth_error (apple_subject claims.subject)
            apple_user h app b subject claims.email
  ]
