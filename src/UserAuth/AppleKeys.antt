-- ===== src/UserAuth/AppleKeys.antt =====
-- internal/userauth/apple_jwks.go: the verifier of Apple's tokens and its cache of keys.
pub mod Served
pub mod Current
pub mod Audience
pub mod Trust
pub mod Kept
use open_aura.Prelude.{
  ℕ, ◌+◌, Option, none, some, String, List, [], ◌∷◌, Bool, not, str_eq, ◌==◌, take, if◌then◌else◌,
  ◌^◌,
}
use open_aura.Text.{trim_space}
use open_aura.Jwks.{Jwk, RsaKey, KeyCache, cached_key, collect_keys, audience_allowed}
use open_aura.Store.{Err, invalid_apple_token, apple_audience, apple_not_configured}
use open_aura.Effect
use open_aura.Effect.{Env, World, M, Result, ok, err, pure, raise, lift, map_err, ◌>>=◌, ◌>>◌, step}
use Prim.Native.String.{◌++◌}
use open_aura.UserAuth.{AppleClaims, AppleVerifier}
use open_aura.UserAuth.Apple.{apple_subject}

-- appleIDTokenClaims
pub record IdTokenClaims : Type 0 where
  pub subject : String
  pub email : String
  pub audience : List String

-- What the key function of Verify reports; its text reaches the client inside the library's.
pub data KeyError : Type 0 where
  unexpected_alg : String → KeyError
  missing_kid unknown_kid : KeyError
  fetch_failed : KeyError
  bad_status : ℕ → KeyError
  read_failed bad_json bad_jwk : KeyError

-- What a GET comes back with: nothing, or a status and what is read of the body.
pub data HttpReply : Type 0 where
  no_reply : HttpReply
  reply : ℕ → Option (List ℕ) → HttpReply

-- net/http, encoding/json and golang-jwt, as the verifier calls them. `header` is the algorithm and the
-- key's id of a token that can be read and has one of the algorithms; `check` tests the signature, the
-- issuer and the dates of a token at a time in nanoseconds; `key_error` is the text of the error in which
-- ParseWithClaims wraps that of the key function.
pub record AppleLibrary : Type 0 where
  pub http_get : ℕ → String → HttpReply
  pub unmarshal : List ℕ → Option (List Jwk)
  pub header : List String → String → Result String (String × String)
  pub check : RsaKey → String → ℕ → String → Result String (IdTokenClaims × Bool)
  pub key_error : KeyError → String

-- JWKSAppleVerifier; its keys are in the state
pub record JwksAppleVerifier : Type 0 where
  pub client_ids : List String
  pub jwks_url : String

abbrev pub apple_jwks_url : String
apple_jwks_url = "https://appleid.apple.com/auth/keys"

abbrev pub apple_issuer : String
apple_issuer = "https://appleid.apple.com"

-- NewJWKSAppleVerifier
abbrev pub new_jwks_apple_verifier : List String → JwksAppleVerifier
new_jwks_apple_verifier client_ids = record { client_ids = client_ids; jwks_url = apple_jwks_url }

-- cachedKey, under the lock
unfoldable pub look_up : String → M KeyError (Option RsaKey)
look_up kid env w =
    let c = env.other_keys w.tick w.apple_keys in
    (ok (cached_key c (env.now w.tick) kid), record w { apple_keys = c; tick = w.tick + 1 })

abbrev pub url_or_default : JwksAppleVerifier → String
url_or_default v = if str_eq v.jwks_url "" then apple_jwks_url else v.jwks_url

-- the body of a reply, of which at most a MiB is read
abbrev pub body_of : HttpReply → Result KeyError (List ℕ)
body_of no_reply = err fetch_failed
body_of (reply status body) =
    if not (status == 200)
    then err (bad_status status)
    else elim body [ none ↦ err read_failed | some bs ↦ ok (take (2 ^ 20) bs) ]

unfoldable pub fetch : AppleLibrary → String → M KeyError (List ℕ)
fetch lib url env w = (body_of (lib.http_get w.tick url), step w)

abbrev pub given : {A : Type 0} → KeyError → Option A → Result KeyError A
given e none = err e
given e (some a) = ok a

-- `v.keys = keys; v.fetched = time.Now()`, under the lock
unfoldable pub store_keys : List (String × RsaKey) → M KeyError (Unit {0})
store_keys keys env w = (
  ok tt,
  record w {
    apple_keys = record { keys = some keys; fetched = env.now w.tick };
    tick = w.tick + 1;
  },
)

-- refreshKeys
unfoldable pub refresh_keys : AppleLibrary → JwksAppleVerifier → M KeyError (Unit {0})
unfolding fetch store_keys
refresh_keys lib v = do
  body ← fetch lib (url_or_default v)
  set ← lift (given bad_json (lib.unmarshal body))
  keys ← lift (given bad_jwk (collect_keys set []))
  store_keys keys

-- the second look-up of keyForKid
unfoldable pub refreshed_key : AppleLibrary → JwksAppleVerifier → String → M KeyError RsaKey
unfolding refresh_keys look_up
refreshed_key lib v kid = do refresh_keys lib v; key ← look_up kid; lift (given unknown_kid key)

-- the key that was found, or else the one after a refresh
abbrev pub or_refreshed :
    AppleLibrary → JwksAppleVerifier → String → Option RsaKey → M KeyError RsaKey
or_refreshed lib v kid (some key) = pure key
or_refreshed lib v kid none = refreshed_key lib v kid

-- keyForKid
unfoldable pub key_for_kid : AppleLibrary → JwksAppleVerifier → String → M KeyError RsaKey
unfolding look_up
key_for_kid lib v kid =
    if str_eq kid "" then raise missing_kid else look_up kid >>= or_refreshed lib v kid

-- the key function of Verify
unfoldable pub key_function : AppleLibrary → JwksAppleVerifier → String × String → M KeyError RsaKey
unfolding key_for_kid
key_function lib v (alg, kid) =
    if not (str_eq alg "RS256") then raise (unexpected_alg alg) else key_for_kid lib v kid

abbrev pub invalid_token : String → Err
invalid_token text = invalid_apple_token (": " ++ text)

-- jwt.ParseWithClaims with its key function, and the error of Verify for its errors
unfoldable pub parse_with_claims :
    AppleLibrary → JwksAppleVerifier → String → M Err (IdTokenClaims × Bool)
unfolding key_function
parse_with_claims lib v token = do
  header ← map_err invalid_token (lift (lib.header ("RS256" ∷ []) token))
  key ← map_err (λ e. invalid_token (lib.key_error e)) (key_function lib v header)
  t ← Effect.now
  map_err invalid_token (lift (lib.check key apple_issuer t token))

abbrev pub with_email : IdTokenClaims → String → M Err AppleClaims
with_email claims subject = pure (record { subject = subject; email = trim_space claims.email })

-- Verify, after the library has parsed the token
unfoldable pub accept : JwksAppleVerifier → IdTokenClaims × Bool → M Err AppleClaims
accept v (claims, valid) =
    if not valid
    then raise (invalid_apple_token "")
    else if not (audience_allowed claims.audience v.client_ids)
    then raise apple_audience
    else apple_subject claims.subject >>= with_email claims

abbrev pub none_given : List String → Bool
none_given [] = Bool.true
none_given (_ ∷ _) = Bool.false

-- Verify
unfoldable pub verify : AppleLibrary → JwksAppleVerifier → String → M Err AppleClaims
unfolding parse_with_claims accept
verify lib v raw =
    let token = trim_space raw in
    if none_given v.client_ids
    then raise apple_not_configured
    else if str_eq token ""
    then raise (invalid_apple_token "")
    else parse_with_claims lib v token >>= accept v

-- the verifier that main gives to WithApple
abbrev pub jwks_verifier : AppleLibrary → List String → AppleVerifier
jwks_verifier lib client_ids = record { verify = verify lib (new_jwks_apple_verifier client_ids) }
