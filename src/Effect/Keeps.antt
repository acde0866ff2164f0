-- ===== src/Effect/Keeps.antt =====
-- Rules by which an action keeps a predicate of the database, whatever the environment does, as long
-- as the concurrent requests keep it too.
use open_aura.Prelude.{◌+◌, ℕ, ◌≡◌, refl, Bool, true, false, if◌then◌else◌}
use open_aura.Schema.{Db}
use open_aura.Store.{DbError}
use open_aura.Effect
use open_aura.Effect.{
  Result, ok, err, Fault, up, refused, reply_lost, Env, World, M, pure, raise, lift, asks, ◌>>=◌,
  map_err, now, new_uuid, random_hex, query, exec, alone, committed, close_tx, in_tx, begin_tx,
  open_tx,
}

-- The concurrent requests keep `P`.
abbrev pub StableUnder : (Db → Type 0) → Env → Type 0
StableUnder P env = (n : ℕ) (db : Db) → P db → P (env.others n db)

pub record Keeps {E A : Type 0} (P : Db → Type 0) (m : M E A) : Type 0 where
  pub at : (env : Env) → StableUnder P env → (w : World) → P w.db → P (m env w).1.db

module _ {E A : Type 0} {P : Db → Type 0} where
  pub Keeps-pure : (a : A) → Keeps P (pure {E = E} a)
  unfolding pure
  Keeps-pure a = record { at = λ env st w h. h }

  pub Keeps-raise : (e : E) → Keeps P (raise {A = A} e)
  unfolding raise
  Keeps-raise e = record { at = λ env st w h. h }

  pub Keeps-lift : (r : Result E A) → Keeps P (lift r)
  unfolding lift
  Keeps-lift r = record { at = λ env st w h. h }

  pub Keeps-asks : (f : Env → A) → Keeps P (asks {E = E} f)
  unfolding asks
  Keeps-asks f = record { at = λ env st w h. h }

  pub Keeps-if : (b : Bool) (m n : M E A) → Keeps P m → Keeps P n → Keeps P (if b then m else n)
  Keeps-if true m n km kn = km
  Keeps-if false m n km kn = kn

module _ {P : Db → Type 0} where
  pub Keeps-now : Keeps P now
  unfolding now
  Keeps-now = record { at = λ env st w h. h }

  pub Keeps-new_uuid : Keeps P new_uuid
  unfolding new_uuid
  Keeps-new_uuid = record { at = λ env st w h. h }

  pub Keeps-random_hex : Keeps P random_hex
  unfolding random_hex
  Keeps-random_hex = record { at = λ env st w h. h }

module _ {E F A : Type 0} {P : Db → Type 0} where
  pub Keeps-map_err : (f : E → F) (m : M E A) → Keeps P m → Keeps P (map_err f m)
  unfolding map_err
  Keeps-map_err f m k = record { at = λ env st w h. k.at env st w h }

module _ {E A B : Type 0} {P : Db → Type 0} where
  pub Keeps-bind_lift :
      (r : Result E A) (f : A → M E B) → ((a : A) → Keeps P (f a)) → Keeps P (lift r >>= f)
  unfolding ◌>>=◌
  Keeps-bind_lift (ok a) f kf = record { at = λ env st w h. (kf a).at env st w h }
  Keeps-bind_lift (err e) f kf = record { at = λ env st w h. h }

  pub Keeps-bind :
      (m : M E A) (f : A → M E B) → Keeps P m → ((a : A) → Keeps P (f a)) → Keeps P (m >>= f)
  unfolding ◌>>=◌
  Keeps-bind m f km kf = record {
    at = λ env st w h.
        let (r, w') = m env w in (Keeps-bind_lift r f kf).at env st w' (km.at env st w h);
  }

-- What a statement that writes has to show: its own writes keep `P`.
abbrev pub WriteKeeps : {A : Type 0} → (Db → Type 0) → (Db → Result DbError (A × Db)) → Type 0
WriteKeeps {A} P f = (db : Db) → P db → (a : A) (db' : Db) → f db ≡ ok (a, db') → P db'

module _ {A : Type 0} {P : Db → Type 0} where
  -- A statement that reads keeps everything.
  pub Keeps-query : (f : Db → Result DbError A) → Keeps P (query f)
  unfolding query
  Keeps-query f = record { at = λ env st w h. st w.tick w.db h }

  Keeps-written :
      (flt : Fault) (db : Db) (r : Result DbError (A × Db))
      → P db
      → ((a : A) (db' : Db) → r ≡ ok (a, db') → P db')
      → P (Effect.written flt db r).1
  Keeps-written up db (ok (a, db')) h k = k a db' refl
  Keeps-written up db (err e) h k = h
  Keeps-written refused db r h k = h
  Keeps-written reply_lost db (ok (a, db')) h k = k a db' refl
  Keeps-written reply_lost db (err e) h k = h

  pub Keeps-exec : (f : Db → Result DbError (A × Db)) → WriteKeeps P f → Keeps P (exec f)
  unfolding exec
  Keeps-exec f k = record {
    at = λ env st w h.
        let db = env.others w.tick w.db in
        Keeps-written (env.fault w.tick) db (f db) (st w.tick w.db h) (k db (st w.tick w.db h));
  }

module _ {E A : Type 0} where
  Keeps-close_tx :
      (Q : Db → Type 0) (e : E) (env : Env) (db : Db) (r : Result E A) (w : World)
      → Q db
      → Q w.db
      → Q (close_tx e env db r w).1.db
  Keeps-close_tx Q e env db (ok a) w h k = committed_keeps (env.fault w.tick)
    where
      committed_keeps : (flt : Fault) → Q (committed e flt db a w).1.db
      committed_keeps up = k
      committed_keeps refused = h
      committed_keeps reply_lost = k
  Keeps-close_tx Q e env db (err x) w h k = h

module _ {E : Type 0} {P : Db → Type 0} where
  pub Keeps-begin_tx : (e : E) → Keeps P (begin_tx e)
  unfolding begin_tx
  Keeps-begin_tx e = record { at = λ env st w h. st w.tick w.db h }

module _ {E A : Type 0} {P : Db → Type 0} where
  -- A transaction keeps what its body keeps.
  pub Keeps-in_tx : (e : E) (body : M E A) → Keeps P body → Keeps P (in_tx e body)
  unfolding in_tx
  Keeps-in_tx e body k = record {
    at = λ env st w h.
        let db = env.others w.tick w.db in
        let w0 : World = record w { db = db; tick = w.tick + 1 } in
        let h' = st w.tick w.db h in
        let run = body (alone env) w0 in
        opened env db w0 run h' (k.at (alone env) (λ n d p. p) w0 h') (env.fault w.tick);
  }
    where
      opened :
          (env : Env) (db : Db) (w0 : World) (run : Result E A × World)
          → P db
          → P run.1.db
          → (flt : Fault)
          → P
              (elim flt as (λ _. Result E A × World) [
                | up ↦ close_tx e env db run.0 run.1
                | refused ↦ (err e, record w0 { db = db })
                | reply_lost ↦ (err e, record w0 { db = db })
              ]).1.db
      opened env db w0 run h k up = Keeps-close_tx P e env db run.0 run.1 h k
      opened env db w0 run h k refused = h
      opened env db w0 run h k reply_lost = h

  -- What follows Begin keeps what its statements keep.
  pub Keeps-open_tx : (e : E) (body : M E A) → Keeps P body → Keeps P (open_tx e body)
  unfolding open_tx
  Keeps-open_tx e body k = record {
    at = λ env st w h.
        let db = env.others w.tick w.db in
        let w0 : World = record w { db = db } in
        let h' = st w.tick w.db h in
        let run = body (alone env) w0 in
        Keeps-close_tx P e env db run.0 run.1 h' (k.at (alone env) (λ n d p. p) w0 h');
  }

-- The rules for everything but the writes.
pub ruleset keeps_rules = (
  Keeps-pure, Keeps-raise, Keeps-lift, Keeps-asks, Keeps-if, Keeps-now, Keeps-new_uuid,
  Keeps-random_hex, Keeps-map_err, Keeps-bind, Keeps-query, Keeps-exec, Keeps-in_tx, Keeps-begin_tx,
  Keeps-open_tx,
)
