-- ===== src/Effect/Yields.antt =====
-- What holds of the result and the database when an action succeeds.
use open_aura.Prelude.{ℕ, ◌+◌, ◌≡◌, refl, sym, subst, Bool, true, false, if◌then◌else◌}
use open_aura.Schema.{Db}
use open_aura.Store.{DbError}
use open_aura.Effect
use open_aura.Effect.{
  Result, ok, err, Fault, up, refused, reply_lost, Env, World, M, pure, raise, ◌>>=◌, map_err,
  renamed, exec,
}

-- `Q` of a success; nothing is said of a failure.
abbrev pub Success : {E A : Type 0} → (A → Db → Type 0) → Result E A × World → Type 0
Success Q (ok a, w) = Q a w.db
Success Q (err e, w) = Unit

pub record Yields {E A : Type 0} (Q : A → Db → Type 0) (m : M E A) : Type 0 where
  pub at : (env : Env) (w : World) → Success Q (m env w)

-- An action that leaves the database as it is.
pub record IsSilent {E A : Type 0} (m : M E A) : Type 0 where
  pub same : (env : Env) (w : World) → (m env w).1.db ≡ w.db

module _ {E A : Type 0} where
  pub IsSilent-pure : (a : A) → IsSilent (pure {E = E} a)
  unfolding pure
  IsSilent-pure a = record { same = λ env w. refl }

  pub IsSilent-raise : (e : E) → IsSilent (raise {A = A} e)
  unfolding raise
  IsSilent-raise e = record { same = λ env w. refl }

  pub IsSilent-if :
      (b : Bool) (m n : M E A) → IsSilent m → IsSilent n → IsSilent (if b then m else n)
  IsSilent-if true m n km kn = km
  IsSilent-if false m n km kn = kn

module _ {E F A : Type 0} where
  Success-renamed :
      (Q : A → Db → Type 0) (f : E → F) (r : Result E A) (w : World)
      → Success Q (r, w)
      → Success Q (renamed f r, w)
  Success-renamed Q f (ok a) w h = h
  Success-renamed Q f (err e) w h = tt

module _ {E A : Type 0} {Q : A → Db → Type 0} where
  pub Yields-raise : (e : E) → Yields Q (raise e)
  unfolding raise
  Yields-raise e = record { at = λ env w. tt }

  pub Yields-if : (b : Bool) (m n : M E A) → Yields Q m → Yields Q n → Yields Q (if b then m else n)
  Yields-if true m n km kn = km
  Yields-if false m n km kn = kn

  pub Yields-map_err : {F : Type 0} (f : E → F) (m : M E A) → Yields Q m → Yields Q (map_err f m)
  unfolding map_err
  Yields-map_err f m k = record {
    at = λ env w. let (r, w') = m env w in Success-renamed Q f r w' (k.at env w);
  }

module _ {E A B : Type 0} {Q : B → Db → Type 0} where
  continue-Success :
      (r : Result E A) (f : A → M E B) (env : Env) (w : World)
      → ((a : A) → Yields Q (f a))
      → Success Q (Effect.continue r f env w)
  continue-Success (ok a) f env w k = (k a).at env w
  continue-Success (err e) f env w k = tt

  -- the last step of a do block is what it yields
  pub Yields-bind : (m : M E A) (f : A → M E B) → ((a : A) → Yields Q (f a)) → Yields Q (m >>= f)
  unfolding ◌>>=◌
  Yields-bind m f k = record {
    at = λ env w. let (r, w') = m env w in continue-Success r f env w' k;
  }

module _ {E A B : Type 0} where
  silent-Success :
      (Q : Db → Type 0) (r : Result E A) (f : A → M E B) (env : Env) (w : World)
      → Success (λ a db. Q db) (r, w)
      → ((a : A) → IsSilent (f a))
      → Success (λ b db. Q db) (Effect.continue r f env w)
  silent-Success Q (ok a) f env w h k = kept (f a env w) (subst Q (sym ((k a).same env w)) h)
    where
      kept : (out : Result E B × World) → Q out.1.db → Success (λ b db. Q db) out
      kept (ok b, w') h = h
      kept (err e, w') h = tt
  silent-Success Q (err e) f env w h k = tt

module _ {E A B : Type 0} {Q : Db → Type 0} where
  -- a first step, and steps after it that leave the database as it is
  pub Yields-bind_silent :
      (m : M E A) (f : A → M E B)
      → Yields (λ a db. Q db) m
      → ((a : A) → IsSilent (f a))
      → Yields (λ b db. Q db) (m >>= f)
  unfolding ◌>>=◌
  Yields-bind_silent m f km kf = record {
    at = λ env w. let (r, w') = m env w in silent-Success Q r f env w' (km.at env w) kf;
  }

module _ {A : Type 0} {Q : A → Db → Type 0} where
  written-Success :
      (flt : Fault) (db : Db) (r : Result DbError (A × Db)) (w : World) (t : ℕ)
      → ((a : A) (db' : Db) → r ≡ ok (a, db') → Q a db')
      → let (o, db') = Effect.written flt db r in Success Q (o, record w { db = db'; tick = t })
  written-Success up db (ok (a, db')) w t k = k a db' refl
  written-Success up db (err e) w t k = tt
  written-Success refused db r w t k = tt
  written-Success reply_lost db (ok (a, db')) w t k = tt
  written-Success reply_lost db (err e) w t k = tt

  pub Yields-exec :
      (f : Db → Result DbError (A × Db))
      → ((db : Db) (a : A) (db' : Db) → f db ≡ ok (a, db') → Q a db')
      → Yields Q (exec f)
  unfolding exec
  Yields-exec f k = record {
    at = λ env w.
        let db = env.others w.tick w.db in
        written-Success (env.fault w.tick) db (f db) w (w.tick + 1) (k db);
  }

pub ruleset yields_rules = (Yields-raise, Yields-if, Yields-map_err, Yields-bind, Yields-exec)

pub ruleset silent_rules = (IsSilent-pure, IsSilent-raise, IsSilent-if)
