-- ===== src/Server/Handlers/SignIn.antt =====
-- What the handlers of internal/userauth and internal/access keep.
use open_aura.Prelude.{◌≡◌, refl, Option, none, some, String, ℕ}
use open_aura.Schema.{Db, Uuid, User}
use open_aura.Store.{Err}
use open_aura.Effect.{M}
use open_aura.Effect.Keeps.{Keeps, keeps_rules}
use open_aura.Httpx.{Request}
use open_aura.System.Statements.{StatementsKeep}
use open_aura.System.Writes.Identities as Writes
use open_aura.System.Writes.Users as UserWrites
use open_aura.User.Repository as Users
use open_aura.UserIdentity.Repository as Identities
use open_aura.UserAuth.{Jwt, TokenConfig, AppleVerifier, RegisterInput, LoginInput, AppleInput}
use open_aura.UserIdentity.{Identity}
use open_aura.UserAuth.Password.{generate_from_password, hash_password, check_password}
use open_aura.UserAuth.Token.{issue_token, new_string}
use open_aura.UserAuth.Apple.{apple_subject, normalize_apple_email}
use open_aura.UserAuth.Handler as Handler
use open_aura.UserAuth.Handler.{AuthHandler}
use open_aura.Access
use open_aura.Server.InApp.{KeepsIn, KeepsIn-require_app_id, handler_rules}

module _ {P : Db → Type 0} where
  Keeps-option :
      {E X B : Type 0} (o : Option X) (m : M E B) (f : X → M E B)
      → Keeps P m
      → ((x : X) → o ≡ some x → Keeps P (f x))
      → Keeps P (elim o as (λ _. M E B) [ none ↦ m | some x ↦ f x ])
  Keeps-option none m f km kf = km
  Keeps-option (some x) m f km kf = kf x refl

  Keeps-generate : (password : String) → Keeps P (generate_from_password password)
  unfolding generate_from_password
  Keeps-generate password = record { at = λ env st w p. p }

  Keeps-hash_password : (password : String) → Keeps P (hash_password password)
  unfolding hash_password
  Keeps-hash_password password = search (keeps_rules, Keeps-generate)

  Keeps-check_password : (hash password : String) → Keeps P (check_password hash password)
  unfolding check_password
  Keeps-check_password hash password = search keeps_rules depth 8

  Keeps-new_string : Keeps P new_string
  unfolding new_string
  Keeps-new_string = record { at = λ env st w p. p }

  Keeps-issue_token : (jwt : Jwt) (cfg : TokenConfig) (u : User) → Keeps P (issue_token jwt cfg u)
  unfolding issue_token
  Keeps-issue_token jwt cfg u = search (keeps_rules, Keeps-new_string) depth 16

  Keeps-write_token :
      (h : AuthHandler) (status : ℕ) (u : User) → Keeps P (Handler.write_token h status u)
  unfolding Handler.write_token
  Keeps-write_token h status u = search (keeps_rules, Keeps-issue_token) depth 8

  Keeps-get_password :
      (app : Uuid) (email : String) → Keeps P (Identities.get_password_by_email app email)
  unfolding Identities.get_password_by_email
  Keeps-get_password app email = search keeps_rules depth 12

  Keeps-get_identity :
      (app : Uuid) (provider subject : String)
      → Keeps P (Identities.get_by_provider_subject app provider subject)
  unfolding Identities.get_by_provider_subject
  Keeps-get_identity app provider subject = search keeps_rules depth 12

  Keeps-get_user : (app id : Uuid) → Keeps P (Users.get_by_id app id)
  unfolding Users.get_by_id
  Keeps-get_user app id = search keeps_rules

  Keeps-find : {A : Type 0} (m : M Err A) → Keeps P m → Keeps P (Handler.find m)
  unfolding Handler.find
  Keeps-find m h = record { at = λ env st w p. h.at env st w p }

  Keeps-apple_subject : (raw : String) → Keeps P (apple_subject raw)
  unfolding apple_subject
  Keeps-apple_subject raw = search keeps_rules depth 8

  Keeps-apple_email : (token body : String) → Keeps P (normalize_apple_email token body)
  unfolding normalize_apple_email
  Keeps-apple_email token body = search keeps_rules depth 8

  pub Keeps-access : (app : Uuid) (i : Access.CheckInput) → Keeps P (Access.Repository.check app i)
  unfolding Access.Repository.check
  Keeps-access app i = search keeps_rules depth 12

-- The verifier of Apple's tokens keeps `P`, if there is one.
abbrev pub VerifierKeeps : (Db → Type 0) → AuthHandler → Type 0
VerifierKeeps P h =
    (v : AppleVerifier) → h.apple ≡ some v → (token : String) → Keeps P (v.verify token)

module _ (A : Uuid → Type 0) (P : Db → Type 0) (k : StatementsKeep A P) (h : AuthHandler) where
  pub register-KeepsIn :
      (r : Request) (body : Option RegisterInput) → KeepsIn A P r.ctx (Handler.register h r body)
  unfolding Handler.register
  register-KeepsIn r body = KeepsIn-require_app_id A P r _ (λ app own.
      search
        (
          handler_rules,
          Keeps-hash_password,
          UserWrites.Keeps-normalize_email A P k,
          Writes.register-Keeps A P k,
          Keeps-write_token,
        )
        depth 16)

  pub login-KeepsIn :
      (r : Request) (body : Option LoginInput) → KeepsIn A P r.ctx (Handler.login h r body)
  unfolding Handler.login
  login-KeepsIn r body = KeepsIn-require_app_id A P r _ (λ app own.
      search (handler_rules, Keeps-get_password, Keeps-check_password, Keeps-write_token) depth 16)

  signed_in-Keeps :
      (app : Uuid)
      → A app
      → (b : AppleInput) (subject email : String) (ident : Option Identity)
      → Keeps P (Handler.signed_in h app b subject email ident)
  unfolding Handler.signed_in
  signed_in-Keeps app own b subject email none =
      search
        (
          handler_rules,
          Keeps-apple_email,
          UserWrites.Keeps-normalize_email A P k,
          Writes.apple-Keeps A P k,
          Keeps-write_token,
        )
        depth 16
  signed_in-Keeps app own b subject email (some i) =
      search (handler_rules, Keeps-get_user, Keeps-write_token) depth 12

  apple_user-Keeps :
      (app : Uuid)
      → A app
      → (b : AppleInput) (subject email : String)
      → Keeps P (Handler.apple_user h app b subject email)
  unfolding Handler.apple_user
  apple_user-Keeps app own b subject email =
      search (handler_rules, Keeps-find, Keeps-get_identity, signed_in-Keeps) depth 12

  pub apple-KeepsIn :
      VerifierKeeps P h
      → (r : Request) (body : Option AppleInput) → KeepsIn A P r.ctx (Handler.apple h r body)
  unfolding Handler.apple
  apple-KeepsIn v r body = KeepsIn-require_app_id A P r _ (λ app own.
      Keeps-option h.apple _ _ (search keeps_rules)
        (λ x e. search (handler_rules, Keeps-apple_subject, apple_user-Keeps app own) depth 20))

  pub check-KeepsIn :
      (r : Request) (body : Option Access.CheckInput)
      → KeepsIn A P r.ctx (Access.Handler.check r body)
  unfolding Access.Handler.check
  check-KeepsIn r body =
      KeepsIn-require_app_id A P r _ (λ app own. search (handler_rules, Keeps-access) depth 12)
