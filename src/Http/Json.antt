-- ===== src/Http/Json.antt =====
-- The values of Boost.JSON as far as the handlers look into them. The text of a document is read and
-- written by that library.
use mail_server_client.Base.{
  ℕ, ℤ, Bool, Option, none, some, List, [], ◌∷◌, Bytes, bytes_eq, if◌then◌else◌,
}

mutual
  pub data Json : Type 0 where
    null : Json
    boolean : Bool → Json
    int64 : ℤ → Json
    uint64 : ℕ → Json
    real text : Bytes → Json
    array : Elements → Json
    object : Fields → Json

  pub data Elements : Type 0 where
    no_more : Elements
    item : Json → Elements → Elements

  pub data Fields : Type 0 where
    no_field : Fields
    field : Bytes → Json → Fields → Fields

-- object.if_contains(name)
unfoldable pub if_contains : Bytes → Fields → Option Json
if_contains name no_field = none
if_contains name (field key value rest) =
    if bytes_eq key name then some value else if_contains name rest

abbrev pub elements_of : List Json → Elements
elements_of [] = no_more
elements_of (x ∷ xs) = item x (elements_of xs)

-- What boost::json::parse makes of a text: a value, or an error with its message.
pub data Parsed : Type 0 where
  parsed : Json → Parsed
  parse_failed : Bytes → Parsed

-- boost::json::parse and boost::json::serialize
pub record JsonText : Type 0 where
  pub parse : Bytes → Parsed
  pub serialize : Json → Bytes

-- A pair of an initializer list {{key, value}, …}
abbrev pub fields_of : List (Bytes × Json) → Fields
fields_of [] = no_field
fields_of ((key, value) ∷ rest) = field key value (fields_of rest)
