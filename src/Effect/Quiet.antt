-- ===== src/Effect/Quiet.antt =====
-- How an action ends when the database answers every statement and no other request changes it.
use open_aura.Prelude.{
  ℕ, ◌+◌, arith, ◌≡◌, refl, sym, ap, ◌∙◌, subst, Bool, true, false, if◌then◌else◌, none, some,
  Option-cases, inl, inr,
}
use open_aura.Schema.{Db}
use open_aura.Store.{DbError, Err, internal}
use open_aura.Effect
use open_aura.Effect.{
  Result, ok, err, Fault, up, Env, World, M, raise, ◌>>=◌, map_err, renamed, query, exec, new_uuid,
}

pub record IsQuiet (env : Env) : Type 0 where
  pub answers : (n : ℕ) → env.fault n ≡ up
  pub alone : (n : ℕ) (db : Db) → env.others n db ≡ db

module _ {E B : Type 0} (env : Env) (db : Db) (R : Result E B → Db → Type 0) where
  -- From the state `w` with the database `db` the action ends with a reply and a database that are related.
  pub record Ends (w : World) (m : M E B) : Type 0 where
    pub at : IsQuiet env → w.db ≡ db → R (m env w).0 (m env w).1.db

  write_then_out :
      {A : Type 0} (g : DbError → E) (k : A → M E B) (r : Result DbError (A × Db))
      → ((e : DbError) → r ≡ err e → R (err (g e)) db)
      → ((a : A) (db' : Db)
          → r ≡ ok (a, db')
          → (w : World) → w.db ≡ db'
          → R (k a env w).0 (k a env w).1.db)
      → (w' : World) → w'.db ≡ (Effect.written up db r).1
      → R
          (Effect.continue (renamed g (Effect.written up db r).0) k env w').0
          (Effect.continue (renamed g (Effect.written up db r).0) k env w').1.db
  write_then_out g k (ok (a, db')) fe fo w' h = fo a db' refl w' h
  write_then_out g k (err e) fe fo w' h = subst (R (err (g e))) (sym h) (fe e refl)

  -- a statement that writes, before the end
  pub Ends-write_bind :
      {A : Type 0} (w : World) (g : DbError → E) (f : Db → Result DbError (A × Db)) (k : A → M E B)
      → ((e : DbError) → f db ≡ err e → R (err (g e)) db)
      → ((a : A) (db' : Db)
          → f db ≡ ok (a, db')
          → (w : World) → w.db ≡ db'
          → R (k a env w).0 (k a env w).1.db)
      → Ends w (map_err g (exec f) >>= k)
  unfolding ◌>>=◌ map_err exec
  Ends-write_bind w g f k fe fo = record {
    at = λ q h.
        let seen : env.others w.tick w.db ≡ db = q.alone w.tick w.db ∙ h in
        rw (q.answers w.tick, seen)
          (write_then_out g k (f db) fe fo
            (record w { db = (Effect.written up db (f db)).1; tick = w.tick + 1 }) refl);
  }

  -- a statement that reads, at the end
  pub Ends-query :
      (w : World) (g : DbError → E) (read : Db → Result DbError B)
      → R (renamed g (read db)) db
      → Ends w (map_err g (query read))
  unfolding map_err query
  Ends-query w g read k = record {
    at = λ q h.
        let seen : env.others w.tick w.db ≡ db = q.alone w.tick w.db ∙ h in
        rw (q.answers w.tick, seen) k;
  }

  pub Ends-raise : (w : World) (e : E) → R (err e) db → Ends w (raise e)
  unfolding raise
  Ends-raise w e k = record { at = λ q h. subst (R (err e)) (sym h) k }

  pub Ends-if :
      (w : World) (b : Bool) (m n : M E B)
      → (b ≡ true → Ends w m)
      → (b ≡ false → Ends w n)
      → Ends w (if b then m else n)
  Ends-if w true m n km kn = km refl
  Ends-if w false m n km kn = kn refl

  continued :
      {A : Type 0} (f : A → M E B) (out : Result E A × World)
      → IsQuiet env
      → out.1.db ≡ db
      → ((e : E) → out.0 ≡ err e → R (err e) db)
      → ((a : A) → out.0 ≡ ok a → Ends out.1 (f a))
      → R (Effect.continue out.0 f env out.1).0 (Effect.continue out.0 f env out.1).1.db
  continued f (ok a, w) q h fe k = (k a refl).at q h
  continued f (err e, w) q h fe k = subst (R (err e)) (sym h) (fe e refl)

  -- a step that leaves the state as it is
  pub Ends-bind :
      {A : Type 0} (w : World) (m : M E A) (f : A → M E B)
      → (m env w).1 ≡ w
      → ((e : E) → (m env w).0 ≡ err e → R (err e) db)
      → ((a : A) → (m env w).0 ≡ ok a → Ends w (f a))
      → Ends w (m >>= f)
  unfolding ◌>>=◌
  Ends-bind w m f s fe k = record {
    at = λ q h.
        continued f (m env w) q (ap (λ v. v.db) s ∙ h) fe
          (λ a e. subst (λ v. Ends v (f a)) (sym s) (k a e));
  }

  read_out :
      {A : Type 0} (g : DbError → E) (r : Result DbError A)
      → ((e : DbError) → r ≡ err e → R (err (g e)) db)
      → (e : E) → renamed g (Effect.reply up r) ≡ err e
      → R (err e) db
  read_out g (ok b) k e h = absurd (ground arith)
  read_out g (err x) k e h = subst (λ y. R (err y) db) (ground arith) (k x refl)

  read_value :
      {A : Type 0} (g : DbError → E) (r : Result DbError A) (a : A)
      → renamed g (Effect.reply up r) ≡ ok a
      → r ≡ ok a
  read_value g (ok b) a h = ground arith
  read_value g (err e) a h = absurd (ground arith)

  -- a statement that reads
  pub Ends-read :
      {A : Type 0} (w : World) (g : DbError → E) (read : Db → Result DbError A) (f : A → M E B)
      → ((e : DbError) → read db ≡ err e → R (err (g e)) db)
      → ((a : A)
          → read db ≡ ok a
          → Ends (record w { db = env.others w.tick w.db; tick = w.tick + 1 }) (f a))
      → Ends w (map_err g (query read) >>= f)
  unfolding ◌>>=◌ map_err query
  Ends-read w g read f fe k = record {
    at = λ q h.
        let seen : env.others w.tick w.db ≡ db = q.alone w.tick w.db ∙ h in
        continued f (map_err g (query read) env w) q seen
          (λ e x. read_out g (read db) fe e (rw (q.answers w.tick, seen) at x))
          (λ a x. k a (read_value g (read db) a (rw (q.answers w.tick, seen) at x)));
  }

  write_out :
      (g : DbError → E) (r : Result DbError (B × Db))
      → ((e : DbError) → r ≡ err e → R (err (g e)) db)
      → ((b : B) (db' : Db) → r ≡ ok (b, db') → R (ok b) db')
      → R (renamed g (Effect.written up db r).0) (Effect.written up db r).1
  write_out g (ok (b, db')) fe k = k b db' refl
  write_out g (err e) fe k = fe e refl

  -- a statement that writes, at the end
  pub Ends-write :
      (w : World) (g : DbError → E) (f : Db → Result DbError (B × Db))
      → ((e : DbError) → f db ≡ err e → R (err (g e)) db)
      → ((b : B) (db' : Db) → f db ≡ ok (b, db') → R (ok b) db')
      → Ends w (map_err g (exec f))
  unfolding map_err exec
  Ends-write w g f fe k = record {
    at = λ q h.
        let seen : env.others w.tick w.db ≡ db = q.alone w.tick w.db ∙ h in
        rw (q.answers w.tick, seen) (write_out g (f db) fe k);
  }

module _ {B : Type 0} (env : Env) (db : Db) (R : Result Err B → Db → Type 0) where
  pub Ends-now :
      (w : World) (f : ℕ → M Err B)
      → Ends env db R (Effect.step w) (f (env.now w.tick))
      → Ends env db R w (Effect.now >>= f)
  unfolding ◌>>=◌ Effect.now
  Ends-now w f k = record { at = λ q h. k.at q h }

  pub Ends-new_uuid :
      (w : World) (f : ℕ → M Err B)
      → (env.new_uuid w.tick ≡ none → R (err internal) db)
      → ((id : ℕ) → env.new_uuid w.tick ≡ some id → Ends env db R (Effect.step w) (f id))
      → Ends env db R w (new_uuid >>= f)
  unfolding ◌>>=◌ new_uuid
  Ends-new_uuid w f fe k = record {
    at = λ q h. elim (Option-cases (env.new_uuid w.tick)) [
      | inl e ↦ rw e (subst (R (err internal)) (sym h) (fe e))
      | inr (id, e) ↦ rw e ((k id e).at q h)
    ];
  }
