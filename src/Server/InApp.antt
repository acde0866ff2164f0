-- ===== src/Server/InApp.antt =====
-- Handlers that act in the app of the request.
use open_aura.Prelude.{
  ◌≡◌, refl, sym, subst, arith, Option, none, some, String, Option-cases, inl, inr,
}
use open_aura.Schema.{Db, Uuid}
use open_aura.Effect
use open_aura.Effect.{Env, World, M, ◌>>=◌, Result, ok, err}
use open_aura.Effect.Keeps.{Keeps, StableUnder, Keeps-raise, Keeps-pure, keeps_rules}
use open_aura.Effect.Yields.{IsSilent}
use open_aura.Httpx.{Request, Context, Response, Handler, decode_json, require_uuid, query_uuid}
use open_aura.Auth.{require_app_id, app_id}
use open_aura.Server.{deliver}

-- The app that the context names satisfies `A`.
abbrev pub ActsIn : (Uuid → Type 0) → Context → Env → Type 0
ActsIn A c env =
    (raw : String) (app : Uuid) → app_id c ≡ some raw → env.parse_uuid raw ≡ some app → A app

-- The action keeps `P` when the app of the context satisfies `A`.
pub record KeepsIn {E X : Type 0} (A : Uuid → Type 0) (P : Db → Type 0) (c : Context) (m : M E X)
    : Type 0 where
  pub at :
      (env : Env) → StableUnder P env → ActsIn A c env → (w : World) → P w.db → P (m env w).1.db

require_uuid-IsSilent :
    {A : Type 0} (raw message : String) → IsSilent (require_uuid {A = A} raw message)
unfolding require_uuid
require_uuid-IsSilent raw message = record { same = λ env w. ground arith }

query_uuid-IsSilent :
    {A : Type 0} (raw message : String) → IsSilent (query_uuid {A = A} raw message)
unfolding query_uuid
query_uuid-IsSilent raw message = record { same = λ env w. ground arith }

require_app_id-IsSilent : {A : Type 0} (r : Request) → IsSilent (require_app_id {A = A} r)
unfolding require_app_id
require_app_id-IsSilent r = record { same = λ env w. ground arith }

require_app_id_inv :
    {A : Type 0} (r : Request) (env : Env) (w : World) (app : Uuid)
    → (require_app_id {A = A} r env w).0 ≡ ok app
    → (raw : String) × (app_id r.ctx ≡ some raw) × (env.parse_uuid raw ≡ some app)
unfolding require_app_id
require_app_id_inv r env w app h = elim (Option-cases (app_id r.ctx)) [
  | inl e ↦ absurd (ground arith)
  | inr (raw, e) ↦ (raw, e, ground arith)
]

module _ {P : Db → Type 0} where
  pub Keeps-decode_json : {A B : Type 0} (o : Option B) → Keeps P (decode_json {A = A} o)
  unfolding decode_json
  Keeps-decode_json none = Keeps-raise _
  Keeps-decode_json (some b) = Keeps-pure b

  pub Keeps-silent : {E A : Type 0} (m : M E A) → IsSilent m → Keeps P m
  Keeps-silent m k = record { at = λ env st w h. subst P (sym (k.same env w)) h }

  pub Keeps-require_uuid :
      {A : Type 0} (raw message : String) → Keeps P (require_uuid {A = A} raw message)
  Keeps-require_uuid raw message = Keeps-silent _ (require_uuid-IsSilent raw message)

  pub Keeps-query_uuid :
      {A : Type 0} (raw message : String) → Keeps P (query_uuid {A = A} raw message)
  Keeps-query_uuid raw message = Keeps-silent _ (query_uuid-IsSilent raw message)

  pub Keeps-require_app_id : {A : Type 0} (r : Request) → Keeps P (require_app_id {A = A} r)
  Keeps-require_app_id r = Keeps-silent _ (require_app_id-IsSilent r)

  pub Keeps-deliver : {A B : Type 0} (f : A → B) (h : Handler A) → Keeps P h → Keeps P (deliver f h)
  unfolding deliver
  Keeps-deliver f h k = record { at = λ env st w p. k.at env st w p }

module _ (A : Uuid → Type 0) (P : Db → Type 0) where
  pub KeepsIn-deliver :
      {X Y : Type 0} (c : Context) (f : X → Y) (h : Handler X)
      → KeepsIn A P c h
      → KeepsIn A P c (deliver f h)
  unfolding deliver
  KeepsIn-deliver c f h k = record { at = λ env st own w p. k.at env st own w p }

  bound_in :
      {E X Y : Type 0} (out : Result E X × World) (f : X → M E Y) (env : Env)
      → StableUnder P env
      → P out.1.db
      → ((x : X) → out.0 ≡ ok x → Keeps P (f x))
      → P (Effect.continue out.0 f env out.1).1.db
  bound_in (ok x, w) f env st p k = (k x refl).at env st w p
  bound_in (err e, w) f env st p k = p

  -- What comes after RequireAppID runs in the app of the context.
  pub KeepsIn-require_app_id :
      {X Y : Type 0} (r : Request) (f : Uuid → M (Response X) Y)
      → ((app : Uuid) → A app → Keeps P (f app))
      → KeepsIn A P r.ctx (require_app_id r >>= f)
  unfolding ◌>>=◌
  KeepsIn-require_app_id r f k = record {
    at = λ env st own w p.
        bound_in (require_app_id r env w) f env st
          (subst P (sym ((require_app_id-IsSilent r).same env w)) p)
          (λ app h. let (raw, a, b) = require_app_id_inv r env w app h in k app (own raw app a b));
  }

-- The rules for the handlers, but for what the repositories write.
pub ruleset handler_rules = (keeps_rules, Keeps-decode_json, Keeps-require_uuid, Keeps-query_uuid)
