-- ===== src/Tests/Login.antt =====
-- A login with the right password.
use open_aura.Prelude.{◌≡◌, refl, [], ◌∷◌, some, none}
use open_aura.Json.{end}
use open_aura.Schema.{IdentityRow}
use open_aura.Effect
use open_aura.Effect.{World, ok, ◌>>=◌, map_err, query}
use open_aura.Httpx.{Response, decode_json}
use open_aura.Text.{trim_space, to_lower, contains}
use open_aura.Auth.{require_app_id}
use open_aura.Sql.{select_one}
use open_aura.UserAuth.{LoginInput, TokenResponse}
use open_aura.UserAuth.Handler.{AuthHandler, login}
use open_aura.UserAuth.Password.{check_password}
use open_aura.UserAuth.Token.{issue_token}
use open_aura.UserIdentity.Repository.{get_password_by_email, select_credential}
use open_aura.UserAuth.Login.{IsAuthenticated, login-IsAuthenticated}
use open_aura.Start.{token_config}
use open_aura.Examples.{quiet, sample_world, sample_db, sample_request}
use open_aura.Examples.Tokens.{sample_jwt}
use open_aura.Examples.Service.{sample_config}

abbrev password_identity : IdentityRow
password_identity = record {
  id = 11;
  app_id = 1;
  user_id = 3;
  provider = "password";
  provider_subject = "ada@x";
  secret_hash = some "12345678";
  metadata = end;
  created_at = 0;
  updated_at = 0;
  deleted_at = none;
}

abbrev registered : World
registered = record sample_world {
  db = record sample_db { user_identities = password_identity ∷ [] };
}

abbrev no_apple : AuthHandler
no_apple = record { token = token_config sample_config; jwt = sample_jwt; apple = none }

abbrev ada : LoginInput
ada = record { email = " Ada@X"; password = "12345678" }

logged_in :
    (out : Response TokenResponse × World) × (login no_apple sample_request
        (some ada)
        quiet
        registered
      ≡ (ok out.0, out.1))
unfolding login ◌>>=◌ require_app_id decode_json map_err get_password_by_email trim_space to_lower
    contains query select_credential select_one check_password issue_token Effect.now
logged_in = (_, refl)

login-IsAuthenticated_example :
    IsAuthenticated no_apple quiet sample_request ada registered.db logged_in.0.0
login-IsAuthenticated_example =
    login-IsAuthenticated no_apple sample_request ada quiet registered logged_in.0.1 logged_in.0.0
      logged_in.1
