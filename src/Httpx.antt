-- ===== src/Httpx.antt =====
-- internal/httpx/httpx.go: replies, pagination, errors of the repositories, metadata.
pub mod Replies
pub mod Paging
use open_aura.Prelude.{
  ℕ, Option, none, some, String, Bool, true, false, not, ◌&&◌, ◌||◌, ℤ, pos, is_nonpos, exceeds,
  is_neg, str_eq, if◌then◌else◌,
}
use open_aura.Json.{Fields, end, RawMessage, absent, object, null_literal, refused}
use open_aura.Store.{
  Err, not_found, conflict, fk_violation, app_mismatch, invalid_input, error_text,
}
use open_aura.Effect.{Result, ok, err, M, raise, pure, Env, World, continue}
use open_aura.Atoi.{atoi}

-- What a handler writes: an error message, a value, or no body at all.
pub data Payload (A : Type 0) : Type 0 where
  error : String → Payload A
  value : A → Payload A
  empty : Payload A

pub record Response (A : Type 0) : Type 0 where
  pub status : ℕ
  pub body : Payload A

-- The authenticated values that the middleware attaches to the context.
pub record Context : Type 0 where
  pub app_id : Option String
  pub admin : Bool

-- What the handlers read of a *http.Request; an absent header, path value or query value is "".
pub record Request : Type 0 where
  pub ctx : Context
  pub header : String → String
  pub path_value : String → String
  pub query : String → String

module _ {A : Type 0} where
  -- WriteJSON
  abbrev pub write_json : ℕ → A → Response A
  write_json status a = record { status = status; body = value a }

  -- WriteError
  abbrev pub write_error : ℕ → String → Response A
  write_error status message = record { status = status; body = error message }

  -- w.WriteHeader(http.StatusNoContent)
  abbrev pub no_content : Response A
  no_content = record { status = 204; body = empty }

-- ClampPagination
unfoldable pub clamp_pagination : ℤ → ℤ → ℤ × ℤ
clamp_pagination limit offset = (
  (if is_nonpos limit || exceeds limit 100 then pos 50 else limit),
  (if is_neg offset then pos 0 else offset),
)

-- Pagination
unfoldable pub pagination : Request → ℤ × ℤ
unfolding clamp_pagination
pagination r = clamp_pagination (atoi (r.query "limit")) (atoi (r.query "offset"))

pub record RepoErrorMessages : Type 0 where
  pub not_found_text : String
  pub conflict_text : String
  pub fk_violation_text : String

internal_error : {A : Type 0} → Response A
internal_error = write_error 500 "internal server error"

-- WriteRepoError: a message that is left blank falls through to the cases below it.
unfoldable pub write_repo_error : {A : Type 0} → RepoErrorMessages → Err → Response A
unfolding internal_error
write_repo_error msgs not_found =
    if not (str_eq msgs.not_found_text "")
    then write_error 404 msgs.not_found_text
    else internal_error
write_repo_error msgs conflict =
    if not (str_eq msgs.conflict_text "")
    then write_error 409 msgs.conflict_text
    else internal_error
write_repo_error msgs fk_violation =
    if not (str_eq msgs.fk_violation_text "")
    then write_error 400 msgs.fk_violation_text
    else internal_error
write_repo_error msgs app_mismatch = write_error 400 (error_text app_mismatch)
write_repo_error msgs (invalid_input s) = write_error 400 (error_text (invalid_input s))
write_repo_error msgs e = internal_error

-- NormalizeMetadata; `none` is its error
unfoldable pub normalize_metadata : RawMessage → Option Fields
normalize_metadata absent = some end
normalize_metadata (object fs) = some fs
normalize_metadata null_literal = none
normalize_metadata refused = none

-- `if err != nil { return ..., ErrInvalidInput: metadata must be a JSON object }`
unfoldable pub require_metadata : RawMessage → M Err Fields
require_metadata raw = elim (normalize_metadata raw) [
  | none ↦ raise (invalid_input "metadata must be a JSON object")
  | some fs ↦ pure fs
]

-- The handlers are written with early returns: what is raised and what is returned are both replies.
abbrev pub Handler : Type 0 → Type 0
Handler A = M (Response A) (Response A)

-- DecodeJSON with its error reply, where the caller gives what the decoder made of the body.
unfoldable pub decode_json : {A B : Type 0} → Option B → M (Response A) B
decode_json none = raise (write_error 400 "invalid json body")
decode_json (some b) = pure b

-- uuid.Parse of a path value, with the handler's error reply
unfoldable pub require_uuid : {A : Type 0} → String → String → M (Response A) ℕ
require_uuid raw message env w = elim (env.parse_uuid raw) [
  | none ↦ (err (write_error 400 message), w)
  | some id ↦ (ok id, w)
]

-- an optional query parameter that must be a UUID
unfoldable pub query_uuid : {A : Type 0} → String → String → M (Response A) (Option ℕ)
query_uuid raw message env w = if str_eq raw "" then (ok none, w) else elim (env.parse_uuid raw) [
  | none ↦ (err (write_error 400 message), w)
  | some id ↦ (ok (some id), w)
]

abbrev reply_of : {A : Type 0} → Result (Response A) (Response A) → Response A
reply_of (ok r) = r
reply_of (err r) = r

-- The reply that a handler writes, and the state that it leaves.
unfoldable pub serve : {A : Type 0} → Handler A → Env → World → Response A × World
serve h env w = let (r, w') = h env w in (reply_of r, w')
