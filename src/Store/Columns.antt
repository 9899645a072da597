-- ===== src/Store/Columns.antt =====
-- Values of `Json` columns and of `metadata` arguments: JavaScript objects whose fields the
-- services read by name. A field that is set again hides the older one.
use payment_microservice.Prelude.{ℕ, String, Bool, Option, none, some, ◌==◌, if◌then◌else◌}

mutual
  pub data Json : Type 0 where
    null : Json
    text : String → Json
    number : ℕ → Json
    boolean : Bool → Json
    date : ℕ → Json
    object : Fields → Json
    other : Json

  pub data Fields : Type 0 where
    end : Fields
    field : String → Json → Fields → Fields

abbrev pub Metadata : Type 0
Metadata = Fields

-- `metadata.key`; an absent field reads as `undefined`
unfoldable pub get : String → Metadata → Option Json
get k end = none
get k (field j v m) = if j == k then some v else get k m

-- `{ ...base, ...extra }`
unfoldable pub merge : Metadata → Metadata → Metadata
merge base end = base
merge base (field k v extra) = field k v (merge base extra)

-- `typeof value === 'string' ? value : undefined`
abbrev pub as_text : Option Json → Option String
as_text (some (text s)) = some s
as_text _ = none

-- `Object.keys(m).length ? m : Prisma.JsonNull`
abbrev pub or_json_null : Metadata → Option Metadata
or_json_null end = none
or_json_null (field k v m) = some (field k v m)
