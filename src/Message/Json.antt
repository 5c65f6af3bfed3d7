-- ===== src/Message/Json.antt =====
-- JSON values, clock readings, and what the envelope code takes from the json module, datetime
-- and pydantic (parameters of the model).
use swarmbus.Base.{ℕ, Bool, Text, text_eq, Option, none, some, if◌then◌else◌}
use swarmbus.Base.Int.{ℤ}

-- A float keeps its literal.
mutual
  pub data Json : Type 0 where
    null : Json
    bool : Bool → Json
    int : ℤ → Json
    real : Text → Json
    str : Text → Json
    arr : Items → Json
    obj : Fields → Json

  pub data Items : Type 0 where
    nil : Items
    cons : Json → Items → Items

  pub data Fields : Type 0 where
    end : Fields
    field : Text → Json → Fields → Fields

-- `datetime`: microseconds on the UTC scale (on the wall clock, if naive), and the offset from UTC
-- in seconds, which a naive value lacks.
pub record DateTime : Type 0 where
  pub instant : ℕ
  pub utcoffset : Option ℤ

-- `json.dumps`, `json.loads` (`none` where it raises), `datetime.isoformat`, pydantic's reading of a
-- datetime, of an int, of the literal 1 and of JSON text, its text of a datetime in JSON mode, and
-- `str.isprintable` of one character.
pub record Codec : Type 0 where
  pub dumps : Json → Text
  pub loads : Text → Option Json
  pub isoformat : DateTime → Text
  pub parse_datetime : Json → Option DateTime
  pub coerce_int : Json → Option ℤ
  pub is_literal_one : Json → Bool
  pub parse_json : Text → Option Json
  pub write_datetime : DateTime → Text
  pub is_printable : ℕ → Bool

-- `data.get(key)`
unfoldable pub get : Text → Fields → Option Json
unfolding text_eq
get k end = none
get k (field j v fs) = if text_eq j k then some v else get k fs
