-- ===== src/System/Writes/Identities.antt =====
-- The transactions of register and of Sign in with Apple keep what the statements keep.
use open_aura.Prelude.{Option, none, some, String}
use open_aura.Json.{RawMessage}
use open_aura.Schema.{Uuid, Db}
use open_aura.Effect.{M}
use open_aura.Effect.Keeps.{Keeps, keeps_rules}
use open_aura.Httpx.Replies.{Keeps-require_metadata}
use open_aura.System.Statements.{StatementsKeep}
use open_aura.User
use open_aura.UserIdentity
use open_aura.Store.{Err}
use open_aura.UserAuth.Handler.{register_user, find, known_or_new, link_apple, apple_transaction}
use open_aura.System.Writes.Users
use open_aura.Schema

module _ (A : Uuid → Type 0) (P : Db → Type 0) (k : StatementsKeep A P) where
  Keeps-checked_subject :
      (app : Uuid) (i : UserIdentity.CreateInput)
      → Keeps P (UserIdentity.Repository.checked_subject app i)
  unfolding UserIdentity.Repository.checked_subject
  Keeps-checked_subject app i = search keeps_rules depth 12

  Keeps-create :
      (app : Uuid)
      → A app
      → (i : UserIdentity.CreateInput) → Keeps P (UserIdentity.Repository.create app i)
  unfolding UserIdentity.Repository.create
  Keeps-create app own i =
      search (keeps_rules, Keeps-require_metadata, Keeps-checked_subject, k.identity_inserted) depth
        16

  pub register-Keeps :
      (app : Uuid)
      → A app
      → (email hash : String) (metadata : RawMessage)
      → Keeps P (register_user app email hash metadata)
  unfolding register_user
  register-Keeps app own email hash metadata =
      search (keeps_rules, Users.create-Keeps A P k, Keeps-create) depth 16

  Keeps-find : {A : Type 0} (m : M Err A) → Keeps P m → Keeps P (find m)
  unfolding find
  Keeps-find m h = record { at = λ env st w p. h.at env st w p }

  Keeps-get_by_email :
      (app : Uuid) (email : String) → Keeps P (User.Repository.get_by_email app email)
  unfolding User.Repository.get_by_email
  Keeps-get_by_email app email = search (keeps_rules, Users.Keeps-normalize_email A P k) depth 8

  Keeps-known_or_new :
      (app : Uuid)
      → A app
      → (email : String) (metadata : RawMessage) (known : Option Schema.User)
      → Keeps P (known_or_new app email metadata known)
  unfolding known_or_new
  Keeps-known_or_new app own email metadata none =
      search (keeps_rules, Users.create-Keeps A P k) depth 12
  Keeps-known_or_new app own email metadata (some u) = search keeps_rules

  Keeps-link_apple :
      (app : Uuid)
      → A app
      → (email subject : String) (metadata : RawMessage) (known : Option Schema.User)
      → Keeps P (link_apple app email subject metadata known)
  unfolding link_apple
  Keeps-link_apple app own email subject metadata known =
      search (keeps_rules, Keeps-known_or_new, Keeps-create) depth 16

  pub apple-Keeps :
      (app : Uuid)
      → A app
      → (email subject : String) (metadata : RawMessage)
      → Keeps P (apple_transaction app email subject metadata)
  unfolding apple_transaction
  apple-Keeps app own email subject metadata =
      search (keeps_rules, Keeps-find, Keeps-get_by_email, Keeps-link_apple) depth 16
