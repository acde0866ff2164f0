-- ===== src/Effect/Laws.antt =====
-- How a do block runs, one step at a time.
use open_aura.Prelude.{ℕ, ◌≡◌, refl, ap, Bool, true, false, if◌then◌else◌, arith, some}
use open_aura.Schema.{Db, Uuid}
use open_aura.Store.{DbError, Err}
use open_aura.Effect
use open_aura.Effect.{
  step, new_uuid, Result, ok, err, Env, World, M, raise, query, exec, asks, ◌>>=◌, map_err, renamed,
  lift, pure, Fault, up, refused, reply_lost,
}

module _ {E A B : Type 0} (m : M E A) (f : A → M E B) (env : Env) (w w' : World) where
  pub bind_ok : (a : A) → m env w ≡ (ok a, w') → (m >>= f) env w ≡ f a env w'
  unfolding ◌>>=◌
  bind_ok a h = rw h

  pub bind_err : (e : E) → m env w ≡ (err e, w') → (m >>= f) env w ≡ (err e, w')
  unfolding ◌>>=◌
  bind_err e h = rw h

module _ {E B : Type 0} where
  pub bind_asks :
      {A : Type 0} (g : Env → A) (f : A → M E B) (env : Env) (w : World)
      → (asks g >>= f) env w ≡ f (g env) env w
  unfolding ◌>>=◌
  bind_asks g f env w = refl

module _ {E F A : Type 0} (g : E → F) (m : M E A) (env : Env) (w w' : World) where
  pub map_err_run : (r : Result E A) → m env w ≡ (r, w') → map_err g m env w ≡ (renamed g r, w')
  unfolding map_err
  map_err_run r h = rw h

module _ {E A : Type 0} (e : E) (m : M E A) (env : Env) (w : World) (a : A) where
  -- a guard that lets a success through did not fail
  pub passed_guard : (b : Bool) → ((if b then raise e else m) env w).0 ≡ ok a → (m env w).0 ≡ ok a
  unfolding raise
  passed_guard true h = absurd (ground arith)
  passed_guard false h = h

module _ {A : Type 0} (f : DbError → Err) (read : Db → Result DbError A) (a : A) (env : Env)
    (w : World) where
  -- what a statement replies was read
  pub replied : (map_err f (query read) env w).0 ≡ ok a → read (env.others w.tick w.db) ≡ ok a
  unfolding map_err query
  replied h = ground arith

module _ {E A : Type 0} (m n : M E A) (env : Env) (w : World) where
  -- a test that fails goes on with the second branch
  pub skipped : (b : Bool) → b ≡ false → (if b then m else n) env w ≡ n env w
  skipped true h = absurd (ground arith)
  skipped false h = refl

module _ (env : Env) (w : World) where
  pub now_runs : Effect.now env w ≡ (ok (env.now w.tick), step w)
  unfolding Effect.now
  now_runs = refl

  pub new_uuid_runs : (id : Uuid) → env.new_uuid w.tick ≡ some id → new_uuid env w ≡ (ok id, step w)
  unfolding new_uuid
  new_uuid_runs id h = rw h

module _ {E A B : Type 0} where
  continue_inv :
      (out : Result E A × World) (f : A → M E B) (env : Env) (w' : World) (b : B)
      → Effect.continue out.0 f env out.1 ≡ (ok b, w')
      → (a : A) × (w1 : World) × (out ≡ (ok a, w1)) × (f a env w1 ≡ (ok b, w'))
  continue_inv (ok a, w1) f env w' b h = (a, w1, refl, h)
  continue_inv (err e, w1) f env w' b h = absurd (ground arith)

  -- A do block that succeeds succeeded in each of its steps.
  pub bind_inv :
      (m : M E A) (f : A → M E B) (env : Env) (w w' : World) (b : B)
      → (m >>= f) env w ≡ (ok b, w')
      → (a : A) × (w1 : World) × (m env w ≡ (ok a, w1)) × (f a env w1 ≡ (ok b, w'))
  unfolding ◌>>=◌
  bind_inv m f env w w' b h = continue_inv (m env w) f env w' b h

module _ {E F A : Type 0} (g : E → F) where
  renamed_inv :
      (out : Result E A × World) (w' : World) (a : A)
      → ◌≡◌ {A = Result F A × World} (renamed g out.0, out.1) (ok a, w')
      → out ≡ (ok a, w')
  renamed_inv (ok b, w1) w' a h = ground arith
  renamed_inv (err e, w1) w' a h = absurd (ground arith)

  pub map_err_inv :
      (m : M E A) (env : Env) (w w' : World) (a : A)
      → map_err g m env w ≡ (ok a, w')
      → m env w ≡ (ok a, w')
  unfolding map_err
  map_err_inv m env w w' a h = renamed_inv (m env w) w' a h

module _ {E A : Type 0} (e : E) (m : M E A) (env : Env) (w w' : World) (a : A) where
  -- a guard that is passed did not hold
  pub guard_inv :
      (b : Bool)
      → (if b then raise e else m) env w ≡ (ok a, w')
      → (b ≡ false) × (m env w ≡ (ok a, w'))
  unfolding raise
  guard_inv true h = absurd (ground arith)
  guard_inv false h = (refl, h)

module _ {E A : Type 0} where
  pub lift_inv :
      (r : Result E A) (env : Env) (w w' : World) (a : A)
      → lift r env w ≡ (ok a, w')
      → (r ≡ ok a) × (w ≡ w')
  unfolding lift
  lift_inv r env w w' a h = ground arith

  pub pure_inv :
      (b : A) (env : Env) (w w' : World) (a : A)
      → pure {E = E} b env w ≡ (ok a, w')
      → (b ≡ a) × (w ≡ w')
  unfolding pure
  pure_inv b env w w' a h = ground arith

module _ {E A B C : Type 0} where
  -- the same, for a proof that goes on with the steps
  pub bind_elim :
      (m : M E A) (f : A → M E B) (env : Env) (w w' : World) (b : B)
      → (m >>= f) env w ≡ (ok b, w')
      → ((a : A) (w1 : World) → m env w ≡ (ok a, w1) → f a env w1 ≡ (ok b, w') → C)
      → C
  bind_elim m f env w w' b h k = let (a, w1, p, q) = bind_inv m f env w w' b h in k a w1 p q

module _ (env : Env) (w w' : World) where
  pub now_inv : (t : ℕ) → Effect.now env w ≡ (ok t, w') → (env.now w.tick ≡ t) × (step w ≡ w')
  unfolding Effect.now
  now_inv t h = ground arith

module _ {E A : Type 0} where
  pub raise_runs : (e : E) (env : Env) (w : World) → raise {A = A} e env w ≡ (err e, w)
  unfolding raise
  raise_runs e env w = refl

module _ {A : Type 0} (f : Db → Result DbError (A × Db)) where
  written_inv :
      (flt : Fault) (db db' : Db) (r : Result DbError (A × Db)) (a : A)
      → ◌≡◌ {A = Result DbError A × Db} (Effect.written flt db r) (ok a, db')
      → r ≡ ok (a, db')
  written_inv up db db' (ok (b, db1)) a h = ground arith
  written_inv up db db' (err e) a h = absurd (ground arith)
  written_inv refused db db' r a h = absurd (ground arith)
  written_inv reply_lost db db' (ok (b, db1)) a h = absurd (ground arith)
  written_inv reply_lost db db' (err e) a h = absurd (ground arith)

  -- what a statement that succeeds has written
  pub exec_inv :
      (env : Env) (w w' : World) (a : A)
      → exec f env w ≡ (ok a, w')
      → f (env.others w.tick w.db) ≡ ok (a, w'.db)
  unfolding exec
  exec_inv env w w' a h =
      let db = env.others w.tick w.db in
      written_inv (env.fault w.tick) db w'.db (f db) a (ap (λ x. (x.0, x.1.db)) h)
