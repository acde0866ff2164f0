-- ===== src/Start/Invariants.antt =====
-- What holds of the database as long as the server runs.
use open_aura.Prelude.{List}
use open_aura.Effect.{Env, World}
use open_aura.Effect.Keeps.{StableUnder}
use open_aura.System.Consistency.{IsConsistent}
use open_aura.System.Consistency.Reached.{statements_keep}
use open_aura.System.UniqueKeys.{HasUniqueKeys, keeps_unique}
use open_aura.Server.{Incoming}
use open_aura.Start.{Surroundings, run}
use open_aura.Start.Kept.{run-Keeps}

-- The server, started with any settings on a consistent database and sent any HTTP requests, leaves a
-- consistent database, whatever faults there are and whatever other writers do that keep it
-- consistent: each assignment joins a user, a role and a tenant of one app, and each permission a role,
-- a resource and an action of one app.
pub run-IsConsistent :
    (s : Surroundings) (is : List Incoming) (env : Env) (w : World)
    → StableUnder IsConsistent env
    → IsConsistent w.db
    → IsConsistent (run s is env w).db
run-IsConsistent = run-Keeps IsConsistent statements_keep

-- The server, started with any settings and sent any HTTP requests, never leaves two API keys or
-- two admin keys with one hash, nor two active identities of an app with one provider and
-- subject, if there were none before and other writers make none.
pub run-HasUniqueKeys :
    (s : Surroundings) (is : List Incoming) (env : Env) (w : World)
    → StableUnder HasUniqueKeys env
    → HasUniqueKeys w.db
    → HasUniqueKeys (run s is env w).db
run-HasUniqueKeys s is env w = keeps_unique env (run s is env) w (λ P k. run-Keeps P k s is env w)
