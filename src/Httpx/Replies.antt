-- ===== src/Httpx/Replies.antt =====
-- What the helpers of the handlers keep of the database: all of it.

use open_aura.Json.{RawMessage, absent, object, null_literal, refused}
use open_aura.Schema.{Db}
use open_aura.Effect.Keeps.{Keeps, Keeps-pure, Keeps-raise}
use open_aura.Httpx.{require_metadata, normalize_metadata}

pub Keeps-require_metadata : {P : Db → Type 0} (raw : RawMessage) → Keeps P (require_metadata raw)
unfolding require_metadata normalize_metadata
Keeps-require_metadata absent = Keeps-pure _
Keeps-require_metadata (object fs) = Keeps-pure _
Keeps-require_metadata null_literal = Keeps-raise _
Keeps-require_metadata refused = Keeps-raise _
