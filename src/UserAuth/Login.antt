-- ===== src/UserAuth/Login.antt =====
-- Who gets a token from Login of internal/userauth/handler.go.

use open_aura.Prelude.{
  ℕ, ◌≡◌, refl, sym, subst, ap, ◌∙◌, Option, none, some, String, true, false, ◌||◌, not, str_eq,
  inl, inr, Bool-cases, Option-cases, arith, if◌then◌else◌,
}
use open_aura.Text.{contains}
use open_aura.Schema.{Uuid, Db, User}
use open_aura.Store.{DbError, invalid_email, invalid_password, map_read_error, error_text}
use open_aura.Effect.{Env, World, Result, ok, ◌>>=◌, map_err, query, row, ◌>>◌, raise, pure}
use open_aura.Effect.Laws.{
  bind_elim, bind_asks, map_err_inv, guard_inv, pure_inv, replied, skipped, raise_runs,
}
use open_aura.Httpx.{Request, Response, write_json, write_error, decode_json, Handler}
use open_aura.Auth.{require_app_id, app_id}
use open_aura.UserIdentity.{PasswordCredential}
use open_aura.UserIdentity.Repository.{get_password_by_email, select_credential}
use open_aura.UserAuth.{LoginInput, TokenResponse}
use open_aura.UserAuth.Password.{check_password}
use open_aura.UserAuth.Token.{issue_token}
use open_aura.UserAuth.Handler.{AuthHandler, login, login_error, write_token, internal_error}
use open_aura.UserAuth.Credential.{login_email, IsCredential, select_credential-IsCredential}

module _ (env : Env) where
  require_app_id_runs :
      {A : Type 0} (r : Request) (app : Uuid) (w w' : World)
      → require_app_id {A = A} r env w ≡ (ok app, w')
      → ((raw : String) × (app_id r.ctx ≡ some raw) × (env.parse_uuid raw ≡ some app)) × (w ≡ w')
  unfolding require_app_id
  require_app_id_runs r app w w' h = elim (Option-cases (app_id r.ctx)) [
    | inl e ↦ absurd (ground arith)
    | inr (raw, e) ↦ elim (Option-cases (env.parse_uuid raw)) [
      | inl f ↦ absurd (ground arith)
      | inr (id, f) ↦ ((raw, e, ground arith), ground arith)
    ]
  ]

  get_password-IsCredential :
      (app : Uuid) (email : String) (c : PasswordCredential) (w w' : World)
      → get_password_by_email app email env w ≡ (ok c, w')
      → IsCredential (env.others w.tick w.db) app (login_email env email) c
  unfolding get_password_by_email
  get_password-IsCredential app email c w w' h =
      let db = env.others w.tick w.db in
      let email' = login_email env email in
      let read : Db → Result DbError PasswordCredential =
        λ db. row (select_credential app email' db.users db.user_identities) in
      let (b, h1) =
        guard_inv invalid_email (map_err map_read_error (query read)) env w w' c
          (str_eq email' "" || not (contains email' "@")) (sym (bind_asks _ _ env w) ∙ h) in
      select_credential-IsCredential app email' db c db.user_identities (λ i m. m)
        (row_inv _ c (replied map_read_error read c env w (ap (λ x. x.0) h1)))
    where
      row_inv : (o : Option PasswordCredential) (c : PasswordCredential) → row o ≡ ok c → o ≡ some c
      row_inv none c h = absurd (ground arith)
      row_inv (some x) c h = ground arith

  check_password_inv :
      (hash password : String) (w w' : World)
      → check_password hash password env w ≡ (ok tt, w')
      → (str_eq hash "" || str_eq password "" ≡ false) × (env.bcrypt_matches hash password ≡ true)
  unfolding check_password
  check_password_inv hash password w w' h =
      let (b, h1) =
        guard_inv invalid_password
          (if env.bcrypt_matches hash password then pure tt else raise invalid_password) env w w' tt
          (str_eq hash "" || str_eq password "") (sym (bind_asks _ _ env w) ∙ h) in
      (
        b,
        elim (Bool-cases (env.bcrypt_matches hash password)) [
          | inl e ↦ e
          | inr e ↦
              let failed =
                sym (
                  skipped (pure tt) (raise invalid_password) env w
                    (env.bcrypt_matches hash password) e)
                ∙ h1 in
              let both = sym (raise_runs {A = Unit {0}} invalid_password env w) ∙ failed in
              absurd (ground arith)
        ],
      )

  write_token_inv :
      (h : AuthHandler) (status : ℕ) (u : User) (reply : Response TokenResponse) (w w' : World)
      → write_token h status u env w ≡ (ok reply, w')
      → (t : TokenResponse) × (reply ≡ write_json status t)
        × (t.user ≡ u)
        × (n : ℕ) × ((issue_token h.jwt h.token u env w).0 ≡ ok (t.access_token, n))
  unfolding write_token
  write_token_inv h status u reply w w' e = bind_elim _ _ env w w' reply e λ issued w1 hi h1. (
    record { access_token = issued.0; token_type = "Bearer"; expires_in = issued.1; user = u },
    sym (pure_inv _ env w1 w' reply h1).0,
    refl,
    issued.1,
    ap (λ x. x.0)
        (map_err_inv (λ _. internal_error) (issue_token h.jwt h.token u) env w w1 issued hi),
  )

-- What a login that gets a token has shown.
pub record IsAuthenticated (h : AuthHandler) (env : Env) (r : Request) (b : LoginInput) (db : Db)
    (reply : Response TokenResponse) : Type 0 where
  pub app : Uuid
  pub raw : String
  pub credential : PasswordCredential
  pub token : TokenResponse
  -- the app is that of the request
  pub authenticated : app_id r.ctx ≡ some raw
  pub parsed : env.parse_uuid raw ≡ some app
  -- the email has a credential in the app, and the password is the one of it
  pub known : IsCredential db app (login_email env b.email) credential
  pub not_blank : str_eq credential.secret_hash "" || str_eq b.password "" ≡ false
  pub matches : env.bcrypt_matches credential.secret_hash b.password ≡ true
  -- the reply has a token for the user of the credential
  pub replied_token : reply ≡ write_json 200 token
  pub of_user : token.user ≡ credential.user
  pub issued :
      (x : World) × (n : ℕ) × ((issue_token h.jwt h.token credential.user env x).0
        ≡ ok (token.access_token, n))

-- Login, in the app of the request and with its body
abbrev checked_login : AuthHandler → LoginInput → Uuid → Handler TokenResponse
checked_login h b app =
    if str_eq b.email "" || str_eq b.password ""
    then raise (write_error 400 "email and password are required")
    else do
      cred ← map_err login_error (get_password_by_email app b.email)
      map_err (λ _. write_error 401 (error_text invalid_password))
          (check_password cred.secret_hash b.password)
      write_token h 200 cred.user

checked_login-IsAuthenticated :
    (h : AuthHandler) (r : Request) (b : LoginInput) (env : Env) (w w' : World)
    (reply : Response TokenResponse) (app : Uuid)
    → (raw : String) × (app_id r.ctx ≡ some raw) × (env.parse_uuid raw ≡ some app)
    → checked_login h b app env w ≡ (ok reply, w')
    → IsAuthenticated h env r b (env.others w.tick w.db) reply
checked_login-IsAuthenticated h r b env w w' reply app (raw, named, parsed) e =
    let (f, e1) =
      guard_inv (write_error 400 "email and password are required") _ env w w' reply
        (str_eq b.email "" || str_eq b.password "") e in
    bind_elim _ _ env w w' reply e1 λ cred w1 hc e2. bind_elim _ _ env w1 w' reply e2 λ u w2 hp e3.
      let known =
        get_password-IsCredential env app b.email cred w w1
          (map_err_inv login_error (get_password_by_email app b.email) env w w1 cred hc) in
      let (n, m) = check_password_inv env cred.secret_hash b.password w1 w2 (
        map_err_inv (λ _. write_error 401 (error_text invalid_password))
          (check_password cred.secret_hash b.password) env w1 w2 tt hp) in
      let (t, q, v, n', i) = write_token_inv env h 200 cred.user reply w2 w' e3 in
      record {
        app = app;
        raw = raw;
        credential = cred;
        token = t;
        authenticated = named;
        parsed = parsed;
        known = known;
        not_blank = n;
        matches = m;
        replied_token = q;
        of_user = v;
        issued = (w2, n', i);
      }

-- Login replies with a token only to a request of an app in which the normalised email has an active
-- password identity of an active user, and only when bcrypt matches the password with the hash of this
-- identity; the token is one that issueToken signed for that user.
pub login-IsAuthenticated :
    (h : AuthHandler) (r : Request) (b : LoginInput) (env : Env) (w w' : World)
    (reply : Response TokenResponse)
    → login h r (some b) env w ≡ (ok reply, w')
    → IsAuthenticated h env r b (env.others w.tick w.db) reply
unfolding login decode_json
login-IsAuthenticated h r b env w w' reply e = bind_elim _ _ env w w' reply e λ app w1 ha h1.
    bind_elim _ _ env w1 w' reply h1 λ b' w2 hb h2.
      let (named, same) = require_app_id_runs env r app w w1 ha in
      let (given, same') = pure_inv b env w1 w2 b' hb in
      subst (λ x. IsAuthenticated h env r b (env.others x.tick x.db) reply) (sym (same ∙ same'))
        (checked_login-IsAuthenticated h r b env w2 w' reply app named
          (subst (λ x. checked_login h x app env w2 ≡ (ok reply, w')) (sym given) h2))
