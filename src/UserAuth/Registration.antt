-- ===== src/UserAuth/Registration.antt =====
-- The transaction of POST /auth/register: Register of internal/userauth.
use open_aura.Prelude.{In-last, ◌≡◌, sym, subst, ◌++◌, [], ◌∷◌, In, Some, String, none, arith}
use open_aura.Json.{RawMessage, absent}
use open_aura.Schema.{Uuid, Db, User, IdentityRow}
use open_aura.Schema.Writes.{insert_user, insert_identity}
use open_aura.Effect.{Env, World, ok, in_tx}
use open_aura.Effect.Keeps.{Keeps, WriteKeeps, keeps_rules}
use open_aura.Effect.Yields.{Yields, yields_rules, silent_rules, Yields-bind_silent}
use open_aura.Effect.Atomic.{IsAtomic, in_tx-IsAtomic, both-Success}
use open_aura.Httpx.Replies.{Keeps-require_metadata}
use open_aura.User.Repository as Users
use open_aura.User
use open_aura.UserIdentity.{CreateInput, provider_password}
use open_aura.UserIdentity.Repository as Identities
use open_aura.UserAuth.Handler.{register_user, internal_error}

-- the user is there, active and of the app
abbrev pub HasUser : Uuid → User → Db → Type 0
HasUser app u db = In u db.users × (u.app_id ≡ app) × (u.deleted_at ≡ none)

-- an active password identity of the user, in the app
abbrev pub HasPassword : Uuid → User → Db → Type 0
HasPassword app u db =
    Some
      (λ (i : IdentityRow).
        (i.user_id ≡ u.id)
        × (i.app_id ≡ app)
        × (i.provider ≡ provider_password)
        × (i.deleted_at ≡ none))
      db.user_identities

insert_user-HasUser :
    (app : Uuid) (r : User)
    → r.app_id ≡ app
    → r.deleted_at ≡ none
    → (db : Db) (a : User) (db' : Db) → insert_user r db ≡ ok (a, db')
    → HasUser app a db'
unfolding insert_user
insert_user-HasUser app r e d db a db' h =
    let same : r ≡ a = ground arith in
    let rows : db'.users ≡ db.users ++ r ∷ [] = ground arith in
    subst (λ x. HasUser app x db') same (subst (In r) (sym rows) (In-last r db.users), e, d)

create-HasUser : (app : Uuid) (i : User.CreateInput) → Yields (HasUser app) (Users.create app i)
unfolding Users.create
create-HasUser app i = search (yields_rules, insert_user-HasUser) depth 16

module _ (app : Uuid) (u : User) where
  insert_identity-HasPassword :
      (r : IdentityRow)
      → r.user_id ≡ u.id
      → r.app_id ≡ app
      → r.provider ≡ provider_password
      → r.deleted_at ≡ none
      → (db : Db) (a : IdentityRow) (db' : Db) → insert_identity r db ≡ ok (a, db')
      → HasPassword app u db'
  unfolding insert_identity
  insert_identity-HasPassword r i e p d db a db' h =
      let rows : db'.user_identities ≡ db.user_identities ++ r ∷ [] = ground arith in
      (r, subst (In r) (sym rows) (In-last r db.user_identities), (i, e, p, d))

  insert_identity-HasUser : (r : IdentityRow) → WriteKeeps (HasUser app u) (insert_identity r)
  unfolding insert_identity
  insert_identity-HasUser r db k a db' h =
      let rows : db'.users ≡ db.users = ground arith in (subst (In u) (sym rows) k.0, k.1, k.2)

  module _ (email hash : String) where
    abbrev password_of : CreateInput
    password_of = record {
      user_id = u.id;
      provider = provider_password;
      provider_subject = email;
      secret_hash = hash;
      metadata = absent;
    }

    identity-HasPassword : Yields (λ i db. HasPassword app u db) (Identities.create app password_of)
    unfolding Identities.create
    identity-HasPassword =
        search (yields_rules, silent_rules, Yields-bind_silent, insert_identity-HasPassword) depth
          20

    identity-Keeps : Keeps (HasUser app u) (Identities.create app password_of)
    unfolding Identities.create Identities.checked_subject
    identity-Keeps = search (keeps_rules, Keeps-require_metadata, insert_identity-HasUser) depth 20

-- The transaction of a registration is all or nothing: the database is as it was when the transaction
-- began and the reply is an error, or it has the user, active and of the app, together with an active
-- password identity of the user.
pub register_user-IsAtomic :
    (app : Uuid) (email hash : String) (metadata : RawMessage) (env : Env) (w : World)
    → IsAtomic
        (λ u db. HasUser app u db × HasPassword app u db)
        (env.others w.tick w.db)
        (in_tx internal_error (register_user app email hash metadata) env w)
unfolding register_user
register_user-IsAtomic app email hash metadata env w =
    in_tx-IsAtomic (λ u db. HasUser app u db × HasPassword app u db) internal_error env
      (register_user app email hash metadata)
      (λ w'.
        both-Success (HasUser app) (HasPassword app) _ _ (search (yields_rules, create-HasUser))
          (λ u. search (keeps_rules, identity-Keeps app u email hash))
          (λ u. search (yields_rules, identity-HasPassword app u email hash)) env w')
      w
