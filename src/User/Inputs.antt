-- ===== src/User/Inputs.antt =====
-- What normalizeEmail and NormalizeMetadata accept, and why they fail.
use open_aura.Prelude.{
  ◌≡◌, refl, Option, none, some, String, Bool-cases, subst, inl, inr, str_eq, arith,
}
use open_aura.Json.{Fields, RawMessage, absent, object, null_literal, refused}
use open_aura.Text.{contains}
use open_aura.Httpx.{require_metadata, normalize_metadata}
use open_aura.Schema.Constraints.{user_table}
use open_aura.Store.{Err, invalid_email, invalid_input}
use open_aura.Effect.{ok, err, Env, World, ◌>>=◌}
use open_aura.User.Repository.{normalize_email, updated_email, updated_metadata}
use open_aura.User.Promise.{plain, IsEmail, IsNoEmail, IsMetadata, IsNoObject}

module _ (env : Env) (w : World) where
  pub metadata_stays : (raw : RawMessage) → (require_metadata raw env w).1 ≡ w
  unfolding require_metadata normalize_metadata ◌>>=◌
  metadata_stays absent = refl
  metadata_stays (object fs) = refl
  metadata_stays null_literal = refl
  metadata_stays refused = refl

  pub email_stays : (email : String) → (normalize_email email env w).1 ≡ w
  unfolding normalize_email ◌>>=◌
  email_stays email = ground arith

  pub updated_email_stays :
      (current : String) (o : Option String) → (updated_email current o env w).1 ≡ w
  unfolding ◌>>=◌
  updated_email_stays current none = refl
  updated_email_stays current (some raw) = email_stays raw

  pub updated_metadata_stays :
      (current : Fields) (o : Option RawMessage) → (updated_metadata current o env w).1 ≡ w
  unfolding ◌>>=◌
  updated_metadata_stays current none = refl
  updated_metadata_stays current (some raw) = metadata_stays raw

-- What normalizeEmail accepts, and why it fails.
pub normalize_email-IsEmail :
    (env : Env) (w : World) (raw email : String)
    → (normalize_email raw env w).0 ≡ ok email
    → IsEmail env raw email
unfolding normalize_email ◌>>=◌
normalize_email-IsEmail env w raw email h = elim (Bool-cases (str_eq (plain env raw) "")) [
  | inl e ↦ absurd (ground arith)
  | inr e ↦ elim (Bool-cases (contains (plain env raw) "@")) [
    | inr f ↦ absurd (ground arith)
    | inl f ↦
        let same : plain env raw ≡ email = ground arith in
        subst (IsEmail env raw) same (record { normal = refl; given = e; sign = f })
  ]
]

pub normalize_email_fails :
    (env : Env) (w : World) (raw : String) (e : Err)
    → (normalize_email raw env w).0 ≡ err e
    → IsNoEmail env raw × (invalid_email ≡ e)
unfolding normalize_email ◌>>=◌
normalize_email_fails env w raw e h = elim (Bool-cases (str_eq (plain env raw) "")) [
  | inl f ↦ (inl f, ground arith)
  | inr f ↦ elim (Bool-cases (contains (plain env raw) "@")) [
    | inr g ↦ (inr g, ground arith)
    | inl g ↦ absurd (ground arith)
  ]
]

-- What is made of the metadata, and why it fails.
pub require_metadata-IsMetadata :
    (env : Env) (w : World) (raw : RawMessage) (fs : Fields)
    → (require_metadata raw env w).0 ≡ ok fs
    → IsMetadata raw fs
unfolding require_metadata normalize_metadata ◌>>=◌
require_metadata-IsMetadata env w absent fs h = ground arith
require_metadata-IsMetadata env w (object sent) fs h = ground arith
require_metadata-IsMetadata env w null_literal fs h = absurd (ground arith)
require_metadata-IsMetadata env w refused fs h = absurd (ground arith)

pub require_metadata_fails :
    (env : Env) (w : World) (raw : RawMessage) (e : Err)
    → (require_metadata raw env w).0 ≡ err e
    → IsNoObject raw × (invalid_input "metadata must be a JSON object" ≡ e)
unfolding require_metadata normalize_metadata ◌>>=◌
require_metadata_fails env w absent e h = absurd (ground arith)
require_metadata_fails env w (object sent) e h = absurd (ground arith)
require_metadata_fails env w null_literal e h = (inl refl, ground arith)
require_metadata_fails env w refused e h = (inr refl, ground arith)
