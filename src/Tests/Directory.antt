-- ===== src/Tests/Directory.antt =====
-- The theorems on the repository of users applied to a small database.
use open_aura.Prelude.{◌≡◌, refl, some, none}
use open_aura.Json.{absent}
use open_aura.Effect.Quiet.{IsQuiet}
use open_aura.User.Repository.{create, update, soft_delete, get_by_id}
use open_aura.User.Directory.{directory}
use open_aura.User.Promise.{Created, Updated, Deleted, got}
use open_aura.User.Refinement.{users-IsDirectory}
use open_aura.User.{CreateInput, UpdateInput}
use open_aura.Examples.{quiet, sample_world}

quiet-IsQuiet : IsQuiet quiet
quiet-IsQuiet = record { answers = λ n. refl; alone = λ n db. refl }

abbrev bob : CreateInput
bob = record { email = "bob@x"; metadata = absent }

abbrev renaming : UpdateInput
renaming = record { email = some "ada@y"; metadata = none }

users-IsDirectory_example :
    Created quiet sample_world.tick 1 bob sample_world.db
      (create 1 bob quiet sample_world).0
      (directory (create 1 bob quiet sample_world).1.db)
    × Updated quiet sample_world.tick 1 3 renaming sample_world.db
        (update 1 3 renaming quiet sample_world).0
        (directory (update 1 3 renaming quiet sample_world).1.db)
    × Deleted 1 3
        (directory sample_world.db)
        (soft_delete 1 3 quiet sample_world).0
        (directory (soft_delete 1 3 quiet sample_world).1.db)
    × ((get_by_id 1 3 quiet sample_world).0 ≡ got (directory sample_world.db 1 3))
    × (directory (get_by_id 1 3 quiet sample_world).1.db ≡ directory sample_world.db)
users-IsDirectory_example = users-IsDirectory 1 3 bob renaming quiet sample_world quiet-IsQuiet
