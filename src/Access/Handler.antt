-- ===== src/Access/Handler.antt =====
-- internal/access/handler.go. `body` is what DecodeJSON makes of the request's body.
use open_aura.Prelude.{Bool, Option}
use open_aura.Store.{Err, invalid_input, error_text}
use open_aura.Effect.{pure, map_err, ◌>>=◌}
use open_aura.Httpx.{Request, Response, Handler, write_json, write_error, decode_json}
use open_aura.Auth.{require_app_id}
use open_aura.Access.{CheckInput}
use open_aura.Access.Repository

check_error : {A : Type 0} → Err → Response A
check_error (invalid_input s) = write_error 400 (error_text (invalid_input s))
check_error e = write_error 500 "internal server error"

-- Check
unfoldable pub check : Request → Option CheckInput → Handler Bool
unfolding check_error
check r body = do
  app ← require_app_id r
  b ← decode_json body
  allowed ← map_err check_error (Repository.check app b)
  pure (write_json 200 allowed)
