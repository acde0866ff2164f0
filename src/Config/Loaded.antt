-- ===== src/Config/Loaded.antt =====
-- What the settings are good for once Load has accepted them.
use open_aura.Prelude.{
  ◌≡◌, Option, none, some, false, Bool-cases, arith, inl, inr, is_nonpos, str_eq, ℤ,
}
use open_aura.Effect.{ok}
use open_aura.Config.{Config, Settings, with_ttl, load, env_or}

-- A secret that is not blank and a lifetime that is positive.
pub record IsUsable (cfg : Config) : Type 0 where
  pub secret : str_eq cfg.jwt_secret "" ≡ false
  pub lifetime : is_nonpos cfg.jwt_ttl ≡ false

with_ttl-IsUsable :
    (e : Settings) (ttl : Option ℤ) (cfg : Config)
    → str_eq (e.getenv "JWT_SECRET") "" ≡ false
    → with_ttl e ttl ≡ ok cfg
    → IsUsable cfg
with_ttl-IsUsable e none cfg n h = absurd (ground arith)
with_ttl-IsUsable e (some ttl) cfg n h = elim (Bool-cases (is_nonpos ttl)) [
  | inl b ↦ absurd (ground arith)
  | inr b ↦ record { secret = ground arith; lifetime = ground arith }
]

pub load-IsUsable : (e : Settings) (cfg : Config) → load e ≡ ok cfg → IsUsable cfg
unfolding load
load-IsUsable e cfg h = elim (Bool-cases (str_eq (e.getenv "DATABASE_URL") "")) [
  | inl a ↦ absurd (ground arith)
  | inr a ↦ elim (Bool-cases (str_eq (e.getenv "JWT_SECRET") "")) [
    | inl b ↦ absurd (ground arith)
    | inr b ↦
        with_ttl-IsUsable e (e.parse_duration (env_or e "JWT_TTL" "24h")) cfg b (rw (a, b) at h)
  ]
]
