-- ===== src/System/Writes/Users.antt =====
-- The writes to users keep what the statements keep.
use open_aura.Prelude.{Option, none, some, String}
use open_aura.Json.{RawMessage}
use open_aura.Schema.{Uuid, Db}
use open_aura.Effect.Keeps.{Keeps, keeps_rules}
use open_aura.Httpx.Replies.{Keeps-require_metadata}
use open_aura.System.Statements.{StatementsKeep}
use open_aura.User
use open_aura.Json.{Fields}

module _ (A : Uuid → Type 0) (P : Db → Type 0) (k : StatementsKeep A P) where
  pub Keeps-normalize_email : (email : String) → Keeps P (User.Repository.normalize_email email)
  unfolding User.Repository.normalize_email
  Keeps-normalize_email email = search keeps_rules depth 8

  pub create-Keeps :
      (app : Uuid) → A app → (i : User.CreateInput) → Keeps P (User.Repository.create app i)
  unfolding User.Repository.create
  create-Keeps app own i =
      search (keeps_rules, Keeps-require_metadata, Keeps-normalize_email, k.user_inserted) depth 16

  pub delete-Keeps :
      (app : Uuid) → A app → (id : Uuid) → Keeps P (User.Repository.soft_delete app id)
  unfolding User.Repository.soft_delete
  delete-Keeps app own id = search (keeps_rules, k.user_deleted) depth 16

  Keeps-updated_email :
      (current : String) (given : Option String)
      → Keeps P (User.Repository.updated_email current given)
  Keeps-updated_email current none = search keeps_rules
  Keeps-updated_email current (some raw) = search (keeps_rules, Keeps-normalize_email) depth 8

  Keeps-updated_metadata :
      (current : Fields) (given : Option RawMessage)
      → Keeps P (User.Repository.updated_metadata current given)
  Keeps-updated_metadata current none = search keeps_rules
  Keeps-updated_metadata current (some raw) = Keeps-require_metadata raw

  Keeps-get_by_id : (app : Uuid) (id : Uuid) → Keeps P (User.Repository.get_by_id app id)
  unfolding User.Repository.get_by_id
  Keeps-get_by_id app id = search keeps_rules

  pub update-Keeps :
      (app : Uuid)
      → A app
      → (id : Uuid) (i : User.UpdateInput) → Keeps P (User.Repository.update app id i)
  unfolding User.Repository.update
  update-Keeps app own id i =
      search
        (
          keeps_rules,
          Keeps-get_by_id,
          Keeps-updated_email,
          Keeps-updated_metadata,
          k.user_updated app id own,
        )
        depth 18
