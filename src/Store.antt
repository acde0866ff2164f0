-- ===== src/Store.antt =====
-- internal/store/errors.go, with the errors of the other packages that errors.Is tells apart.
use open_aura.Prelude.{String, str_eq, if◌then◌else◌}
use open_aura.Text.{contains}
use Prim.Native.String.{◌++◌}

-- What a call of pgx reports: an error of the server with its code and message, a QueryRow that met
-- no row, or anything else (a lost connection, an expired context).
pub data DbError : Type 0 where
  pg : String → String → DbError
  no_rows : DbError
  broken : DbError

-- The errors of the program. `invalid_input` is ErrInvalidInput wrapped with the text behind it, and
-- `internal` is every error that no handler tells apart.
pub data Err : Type 0 where
  not_found conflict fk_violation app_mismatch : Err
  invalid_input : String → Err
  invalid_email password_too_short invalid_password : Err
  -- ErrInvalidAppleToken, with the text that wraps it
  invalid_apple_token : String → Err
  apple_not_configured apple_email_required apple_audience : Err
  internal : Err

-- err.Error() of the errors whose text reaches a client
unfoldable pub error_text : Err → String
error_text not_found = "not found"
error_text conflict = "conflict"
error_text fk_violation = "foreign key violation"
error_text app_mismatch = "user, role, and tenant must belong to the same app"
error_text (invalid_input s) = "invalid input: " ++ s
error_text invalid_email = "invalid email"
error_text password_too_short = "password must be at least 8 characters"
error_text invalid_password = "invalid email or password"
error_text (invalid_apple_token s) = "invalid apple identity token" ++ s
error_text apple_not_configured = "apple sign-in is not configured"
error_text apple_email_required = "email is required for first apple sign-in"
error_text apple_audience = "apple identity token audience is not allowed"
error_text internal = "internal"

-- MapWriteError
unfoldable pub map_write_error : DbError → Err
map_write_error (pg code message) =
    if str_eq code "23505"
    then conflict
    else if str_eq code "23503"
    then fk_violation
    else if str_eq code "P0001"
    then (if contains message "same app" then app_mismatch else internal)
    else internal
map_write_error no_rows = internal
map_write_error broken = internal

-- `if errors.Is(err, pgx.ErrNoRows) { return ErrNotFound }`, and any other error wrapped
unfoldable pub map_read_error : DbError → Err
map_read_error no_rows = not_found
map_read_error (pg _ _) = internal
map_read_error broken = internal

-- the same test before MapWriteError, as the updates have it
unfoldable pub map_update_error : DbError → Err
unfolding map_write_error
map_update_error no_rows = not_found
map_update_error e = map_write_error e

-- an error that is only wrapped
unfoldable pub wrap_error : DbError → Err
wrap_error e = internal
