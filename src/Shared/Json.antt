-- ===== src/Shared/Json.antt =====
-- What the source has as `unknown` after `JSON.parse`, for the packages of the repository.
use junon.Shared.{ℕ, String, Bool, ◌==◌, Option, none, some, if◌then◌else◌}

mutual
  -- A number is a natural one; what the code does with others is written where it is read.
  pub data Json : Type 0 where
    null : Json
    boolean : Bool → Json
    number : ℕ → Json
    text : String → Json
    array : Items → Json
    object : Fields → Json

  pub data Items : Type 0 where
    no_items : Items
    item : Json → Items → Items

  pub data Fields : Type 0 where
    no_fields : Fields
    field : String → Json → Fields → Fields

-- `value[name]`, of a record; `none` stands for `undefined`.
unfoldable pub get_field : String → Fields → Option Json
get_field name no_fields = none
get_field name (field key value fs) = if key == name then some value else get_field name fs

-- `isRecord(value)`, with the record.
abbrev pub as_record : Json → Option Fields
as_record (object fs) = some fs
as_record _ = none

-- `Array.isArray(value)`, with the array.
abbrev pub as_array : Json → Option Items
as_array (array xs) = some xs
as_array _ = none

abbrev pub as_text : Json → Option String
as_text (text t) = some t
as_text _ = none
