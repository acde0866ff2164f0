-- ===== src/Effect.antt =====
-- Code that reads clocks, draws random values and talks to the database, as functions of the
-- environment and the state.
--
-- Every call that leaves the program takes the next tick, and the environment says for each tick
-- what the clock, the random source and the database do then. Before each statement the other
-- requests may have changed the database (`others`), so the statements of concurrent requests
-- interleave in every way outside of transactions. A statement may be refused, or be executed with
-- its reply lost.
pub mod Keeps
pub mod Yields
pub mod Laws
pub mod Atomic
pub mod Quiet
use open_aura.Prelude.{ℕ, ◌+◌, Option, none, some, String, Char, List, Bool}
use open_aura.Json.{Json}
use open_aura.Jwks.{KeyCache}
use open_aura.Schema.{Db, Uuid, Time}
use open_aura.Store.{DbError, no_rows, broken, Err, internal}

pub data Result (E A : Type 0) : Type 0 where
  ok : A → Result E A
  err : E → Result E A

pub data Fault : Type 0 where
  up : Fault
  refused : Fault
  reply_lost : Fault

pub record Env : Type 0 where
  pub now : ℕ → Time
  pub new_uuid : ℕ → Option Uuid
  -- 32 bytes of crypto/rand, in hex
  pub random_hex : ℕ → Option String
  pub fault : ℕ → Fault
  pub others : ℕ → Db → Db
  -- what other requests have done to the cache of Apple's keys
  pub other_keys : ℕ → KeyCache → KeyCache
  -- uuid.Parse and String of google/uuid
  pub parse_uuid : String → Option Uuid
  pub uuid_string : Uuid → String
  -- hex.EncodeToString of sha256.Sum256
  pub sha256_hex : String → String
  -- unicode.ToLower beyond ASCII
  pub unicode_lower : Char → Char
  -- the text of a JSON value that is no string, as `->>` of Postgres gives it
  pub json_text : Json → String
  -- bcrypt.GenerateFromPassword with its random salt, and CompareHashAndPassword of golang.org/x/crypto
  pub bcrypt_hash : ℕ → String → Option String
  pub bcrypt_matches : String → String → Bool
  -- uuid.NewString
  pub uuid_v4 : ℕ → String

-- The state: the database, the cache of the verifier of Apple's tokens, and the next tick.
pub record World : Type 0 where
  pub db : Db
  pub apple_keys : KeyCache
  pub tick : ℕ

abbrev pub M : Type 0 → Type 0 → Type 0
M E A = Env → World → Result E A × World

module _ {E A : Type 0} where
  pub pure : A → M E A
  pure a env w = (ok a, w)

  pub raise : E → M E A
  raise e env w = (err e, w)

  pub lift : Result E A → M E A
  lift r env w = (r, w)

  -- a value that the environment fixes once and for all
  pub asks : (Env → A) → M E A
  asks f env w = (ok (f env), w)

module _ {E A B : Type 0} where
  abbrev pub continue : Result E A → (A → M E B) → M E B
  continue (ok a) f env w = f a env w
  continue (err e) f env w = (err e, w)

  infixl 5 ◌>>=◌ ◌>>◌
  -- Opening this opens `pure`, `raise`, `lift` and `asks` too.
  unfoldable pub ◌>>=◌ : M E A → (A → M E B) → M E B
  unfolding pure raise lift asks
  ◌>>=◌ m f env w = let (r, w') = m env w in continue r f env w'

  abbrev pub ◌>>◌ : M E A → M E B → M E B
  m >> n = m >>= λ _. n

abbrev pub renamed : {E F A : Type 0} → (E → F) → Result E A → Result F A
renamed f (ok a) = ok a
renamed f (err e) = err (f e)

-- `if err != nil { return ..., f(err) }`
unfoldable pub map_err : {E F A : Type 0} → (E → F) → M E A → M F A
map_err f m env w = let (r, w') = m env w in (renamed f r, w')

abbrev pub step : World → World
step w = record w { tick = w.tick + 1 }

-- a draw that may fail
abbrev pub drawn : {A : Type 0} → Option A → Result Err A
drawn none = err internal
drawn (some a) = ok a

-- time.Now().UTC()
unfoldable pub now : M Err Time
now env w = (ok (env.now w.tick), step w)

-- uuid.NewV7()
unfoldable pub new_uuid : M Err Uuid
new_uuid env w = (drawn (env.new_uuid w.tick), step w)

-- rand.Read of 32 bytes, and hex.EncodeToString
unfoldable pub random_hex : M Err String
random_hex env w = (drawn (env.random_hex w.tick), step w)

module _ {A : Type 0} where
  -- the reply to a statement that read `r`
  abbrev pub reply : Fault → Result DbError A → Result DbError A
  reply up r = r
  reply refused r = err broken
  reply reply_lost r = err broken

  -- A statement that only reads.
  unfoldable pub query : (Db → Result DbError A) → M DbError A
  query f env w =
      let db = env.others w.tick w.db in
      (reply (env.fault w.tick) (f db), record w { db = db; tick = w.tick + 1 })

  -- the reply and the database after a statement that writes
  abbrev pub written : Fault → Db → Result DbError (A × Db) → Result DbError A × Db
  written up db (ok (a, db')) = (ok a, db')
  written up db (err e) = (err e, db)
  written refused db r = (err broken, db)
  written reply_lost db (ok (a, db')) = (err broken, db')
  written reply_lost db (err e) = (err broken, db)

  -- A statement that writes; a failed one leaves the database as it was.
  unfoldable pub exec : (Db → Result DbError (A × Db)) → M DbError A
  exec f env w =
      let db = env.others w.tick w.db in
      let (r, db') = written (env.fault w.tick) db (f db) in
      (r, record w { db = db'; tick = w.tick + 1 })

-- A QueryRow whose Scan wants a row.
abbrev pub row : {A : Type 0} → Option A → Result DbError A
row none = err no_rows
row (some a) = ok a

-- No request of others falls between the statements of a transaction that is open.
abbrev pub alone : Env → Env
alone env = record env { others = λ n db. db }

module _ {E : Type 0} where
  abbrev begun : E → Fault → Result E (Unit {0})
  begun e up = ok tt
  begun e refused = err e
  begun e reply_lost = err e

  -- Begin, where statements on the pool follow before the first one of the transaction
  unfoldable pub begin_tx : E → M E (Unit {0})
  begin_tx e env w =
      (begun e (env.fault w.tick), record w { db = env.others w.tick w.db; tick = w.tick + 1 })

module _ {E A : Type 0} where
  -- Commit, or the deferred Rollback of a body that failed
  abbrev pub committed : E → Fault → Db → A → World → Result E A × World
  committed e up db a w = (ok a, record w { db = w.db; tick = w.tick + 1 })
  committed e refused db a w = (err e, record w { db = db; tick = w.tick + 1 })
  committed e reply_lost db a w = (err e, record w { db = w.db; tick = w.tick + 1 })

  abbrev pub close_tx : E → Env → Db → Result E A → World → Result E A × World
  close_tx e env db (ok a) w = committed e (env.fault w.tick) db a w
  close_tx e env db (err x) w = (err x, record w { db = db; tick = w.tick + 1 })

  -- Begin, the body, and Commit; `e` is what the code replies when Begin or Commit fails.
  unfoldable pub in_tx : E → M E A → M E A
  in_tx e body env w =
      let db = env.others w.tick w.db in
      let (r, w') = body (alone env) (record w { db = db; tick = w.tick + 1 }) in
      elim (env.fault w.tick) [
        | up ↦ close_tx e env db r w'
        | _ ↦ (err e, record w { db = db; tick = w.tick + 1 })
      ]

  -- the statements of a transaction that has begun, and Commit
  unfoldable pub open_tx : E → M E A → M E A
  open_tx e body env w =
      let db = env.others w.tick w.db in
      let (r, w') = body (alone env) (record w { db = db }) in close_tx e env db r w'
