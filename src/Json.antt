-- ===== src/Json.antt =====
-- JSON values as encoding/json gives them, and the metadata of the entities.
use open_aura.Prelude.{Option, none, some, String, str_eq, if◌then◌else◌, Bool}

mutual
  pub data Json : Type 0 where
    null : Json
    bool : Bool → Json
    num : String → Json
    str : String → Json
    arr : Elems → Json
    obj : Fields → Json

  pub data Elems : Type 0 where
    nil : Elems
    cons : Json → Elems → Elems

  -- The members of an object, in the order of their keys, as json.Marshal writes a map.
  pub data Fields : Type 0 where
    end : Fields
    field : String → Json → Fields → Fields

unfoldable pub member : String → Fields → Option Json
member k end = none
member k (field j v fs) = if str_eq j k then some v else member k fs

-- A json.RawMessage, by what json.Unmarshal into a map makes of its bytes: no bytes at all, an
-- object, null, or bytes that are refused (another JSON value or no JSON).
pub data RawMessage : Type 0 where
  absent : RawMessage
  object : Fields → RawMessage
  null_literal : RawMessage
  refused : RawMessage
