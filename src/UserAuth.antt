-- ===== src/UserAuth.antt =====
-- internal/userauth: the inputs, the tokens and the interfaces of the libraries.
pub mod Password
pub mod Token
pub mod Apple
pub mod AppleKeys
pub mod Handler
pub mod Registration
pub mod Credential
pub mod Login
use open_aura.Prelude.{ℕ, Option, String, Bool, ℤ, List}
use open_aura.Json.{RawMessage}
use open_aura.Schema.{User}
use open_aura.Store.{Err}
use open_aura.Effect.{M}

pub record RegisterInput : Type 0 where
  pub email : String
  pub password : String
  pub metadata : RawMessage

pub record LoginInput : Type 0 where
  pub email : String
  pub password : String

pub record TokenResponse : Type 0 where
  pub access_token : String
  pub token_type : String
  pub expires_in : ℕ
  pub user : User

-- `ttl` is a time.Duration, in nanoseconds.
pub record TokenConfig : Type 0 where
  pub secret : String
  pub issuer : String
  pub ttl : ℤ

-- Claims, with the registered claims that the program sets; the dates are in seconds.
pub record Claims : Type 0 where
  pub app_id : String
  pub email : String
  pub subject : String
  pub issuer : String
  pub issued_at : ℕ
  pub expires_at : ℕ
  pub id : String

-- golang-jwt: SignedString of an HS256 token, and ParseWithClaims with a function from the token's
-- algorithm to the key, the issuer and the valid methods it is given, at a time in nanoseconds.
pub record Jwt : Type 0 where
  pub sign : String → Claims → Option String
  pub parse : (String → Option String) → String → List String → ℕ → String → Option (Claims × Bool)

-- AppleClaims
pub record AppleClaims : Type 0 where
  pub subject : String
  pub email : String

-- AppleVerifier
pub record AppleVerifier : Type 0 where
  pub verify : String → M Err AppleClaims

pub record AppleInput : Type 0 where
  pub identity_token : String
  pub email : String
  pub metadata : RawMessage
