-- ===== src/Effect/Atomic.antt =====
-- A transaction leaves all of its writes or none of them.
use open_aura.Prelude.{◌≡◌, refl, ◌+◌, ◌⊎◌, inl, inr}
use open_aura.Schema.{Db}
use open_aura.Effect
use open_aura.Effect.{
  Result, ok, err, Fault, up, refused, reply_lost, Env, World, M, pure, ◌>>=◌, ◌>>◌, alone,
  committed, close_tx, in_tx,
}
use open_aura.Effect.Keeps.{Keeps}
use open_aura.Effect.Yields.{Success, Yields}

-- What the environment of a transaction does to the database: nothing.
module _ {E A B : Type 0} (P Q : A → Db → Type 0) where
  second-Success :
      (a : A) (out : Result E B × World)
      → P a out.1.db
      → Success (λ b db. Q a db) out
      → (env : Env)
      → Success (λ a db. P a db × Q a db) (Effect.continue out.0 (λ b. pure a) env out.1)
  unfolding pure
  second-Success a (ok b, w) p q env = (p, q)
  second-Success a (err e, w) p q env = tt

  first-Success :
      (f : A → M E B)
      → ((a : A) → Keeps (P a) (f a))
      → ((a : A) → Yields (λ b db. Q a db) (f a))
      → (env : Env) (out : Result E A × World) → Success P out
      → Success
          (λ a db. P a db × Q a db)
          (Effect.continue out.0 (λ a. f a >> pure a) (alone env) out.1)
  unfolding ◌>>=◌
  first-Success f kf yf env (ok a, w) p =
      second-Success a (f a (alone env) w) ((kf a).at (alone env) (λ n db h. h) w p)
        ((yf a).at (alone env) w) (alone env)
  first-Success f kf yf env (err e, w) p = tt

  -- Two writes in a transaction, the second of which keeps what the first one gives.
  pub both-Success :
      (m : M E A) (f : A → M E B)
      → Yields P m
      → ((a : A) → Keeps (P a) (f a))
      → ((a : A) → Yields (λ b db. Q a db) (f a))
      → (env : Env) (w : World)
      → Success (λ a db. P a db × Q a db) ((m >>= λ a. f a >> pure a) (alone env) w)
  unfolding ◌>>=◌
  both-Success m f km kf yf env w =
      first-Success f kf yf env (m (alone env) w) (km.at (alone env) w)

-- The database is as the transaction found it and the reply an error, or all is written.
abbrev pub IsAtomic : {E A : Type 0} → (A → Db → Type 0) → Db → Result E A × World → Type 0
IsAtomic {E} {A} R db out =
    ((e : E) × (out.0 ≡ err e) × (out.1.db ≡ db))
    ⊎ ((a : A) × R a out.1.db × ((out.0 ≡ ok a) ⊎ ((e : E) × (out.0 ≡ err e))))

module _ {E A : Type 0} (R : A → Db → Type 0) (e : E) (env : Env) where
  committed-IsAtomic :
      (f : Fault) (db : Db) (a : A) (w : World) → R a w.db → IsAtomic R db (committed e f db a w)
  committed-IsAtomic up db a w h = inr (a, h, inl refl)
  committed-IsAtomic refused db a w h = inl (e, refl, refl)
  committed-IsAtomic reply_lost db a w h = inr (a, h, inr (e, refl))

  close_tx-IsAtomic :
      (db : Db) (out : Result E A × World)
      → Success R out
      → IsAtomic R db (close_tx e env db out.0 out.1)
  close_tx-IsAtomic db (ok a, w) h = committed-IsAtomic (env.fault w.tick) db a w h
  close_tx-IsAtomic db (err x, w) h = inl (x, refl, refl)

  pub in_tx-IsAtomic :
      (body : M E A)
      → ((w : World) → Success R (body (alone env) w))
      → (w : World) → IsAtomic R (env.others w.tick w.db) (in_tx e body env w)
  unfolding in_tx
  in_tx-IsAtomic body h w =
      let db = env.others w.tick w.db in
      let w0 : World = record w { db = db; tick = w.tick + 1 } in
      opened db w0 (body (alone env) w0) (h w0) (env.fault w.tick)
    where
      opened :
          (db : Db) (w0 : World) (out : Result E A × World)
          → Success R out
          → (f : Fault)
          → IsAtomic R db (elim f as (λ _. Result E A × World) [
            | up ↦ close_tx e env db out.0 out.1
            | refused ↦ (err e, record w0 { db = db })
            | reply_lost ↦ (err e, record w0 { db = db })
          ])
      opened db w0 out h up = close_tx-IsAtomic db out h
      opened db w0 out h refused = inl (e, refl, refl)
      opened db w0 out h reply_lost = inl (e, refl, refl)
