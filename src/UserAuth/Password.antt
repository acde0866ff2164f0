-- ===== src/UserAuth/Password.antt =====
-- internal/userauth/password.go
use Prim.Native.String.{len}
use open_aura.Prelude.{◌||◌, String, ltb, str_eq, if◌then◌else◌}
use open_aura.Store.{Err, password_too_short, invalid_password}
use open_aura.Effect.{M, raise, pure, asks, ◌>>=◌, drawn, step}

-- bcrypt.GenerateFromPassword
unfoldable pub generate_from_password : String → M Err String
generate_from_password password env w = (drawn (env.bcrypt_hash w.tick password), step w)

-- hashPassword; len counts bytes
unfoldable pub hash_password : String → M Err String
unfolding generate_from_password
hash_password password =
    if ltb (len password) 8 then raise password_too_short else generate_from_password password

-- checkPassword
unfoldable pub check_password : String → String → M Err (Unit {0})
check_password hash password = do
  matches ← asks (λ env. env.bcrypt_matches hash password)
  if str_eq hash "" || str_eq password ""
      then raise invalid_password
      else if matches
      then pure tt
      else raise invalid_password
