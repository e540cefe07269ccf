-- ===== src/Json.antt =====
-- JSON values and their canonical text, of crates/blindoverlap/src/fact_id.rs.
pub mod Strings
pub mod Order
use Prim.Native.Nat.{◌/◌, ◌%◌}
use blind_overlap.Prelude.{
  ℕ, zero, suc, ◌+◌, ◌^◌, Bool, true, false, ◌&&◌, ◌||◌, Option, none, some, List, [], ◌∷◌, ◌++◌,
  map, ltb, leb, ◌==◌, if◌then◌else◌, Result, ok, ◌>>=◌, ok_or,
}
use blind_overlap.Bytes.{Bytes, Text, ascii, eqb, lex, bytes_order}
use blind_overlap.Crypto.{Crypto}
use blind_overlap.OrdSet
use blind_overlap.FactSet
use blind_overlap.FactSet.{FactId, FactSet, compute_set_root}
use blind_overlap.Cli.Lines.{decimal}

-- `serde_json::Number`: an integer that fits `u64`, minus an integer (which fits `i64`), or the bits
-- of an `f64`.
pub data Number : Type 0 where
  unsigned negative float : ℕ → Number

-- `serde_json::Value`. An object has its keys in the order of the map, each once.
mutual
  pub data Json : Type 0 where
    null : Json
    boolean : Bool → Json
    number : Number → Json
    string : Text → Json
    array : Items → Json
    object : Fields → Json

  pub data Items : Type 0 where
    no_items : Items
    item : Json → Items → Items

  pub data Fields : Type 0 where
    no_fields : Fields
    field : Text → Json → Fields → Fields

-- What the code takes from the standard library and from serde_json: `format!("{}", f)` of an `f64`,
-- given by its bits, and the parser.
pub record JsonLibrary : Type 0 where
  pub display_f64 : ℕ → Text
  pub parse : Text → Option Json

-- `Value::get` of an object.
unfoldable pub get : Text → Fields → Option Json
get key no_fields = none
get key (field k v rest) = if eqb k key then some v else get key rest

-- `f.is_nan() || f.is_infinite()`: all bits of the exponent are set.
abbrev is_special : ℕ → Bool
is_special bits = bits / 2 ^ 52 % 2 ^ 11 == 2047

-- `f == 0.0`, also of the negative zero.
abbrev is_zero : ℕ → Bool
is_zero bits = bits % 2 ^ 63 == 0

unfoldable pub has_exponent : Text → Bool
has_exponent [] = false
has_exponent (b ∷ s) = b == 101 || b == 69 || has_exponent s

-- `to_lowercase` of ASCII text.
unfoldable pub to_lowercase : Text → Text
to_lowercase [] = []
to_lowercase (b ∷ s) = (if leb 65 b && leb b 90 then b + 32 else b) ∷ to_lowercase s

unfoldable pub hex_digit : ℕ → ℕ
hex_digit n = if ltb n 10 then 48 + n else 87 + n

-- One character of a string; the bytes of longer characters pass unchanged.
unfoldable pub escape : ℕ → Text
unfolding hex_digit
escape b =
    if b == 34
    then 92 ∷ 34 ∷ []
    else if b == 92
    then 92 ∷ 92 ∷ []
    else if b == 8
    then 92 ∷ 98 ∷ []
    else if b == 12
    then 92 ∷ 102 ∷ []
    else if b == 10
    then 92 ∷ 110 ∷ []
    else if b == 13
    then 92 ∷ 114 ∷ []
    else if b == 9
    then 92 ∷ 116 ∷ []
    else if ltb b 32
    then 92 ∷ 117 ∷ 48 ∷ 48 ∷ hex_digit (b / 16) ∷ hex_digit (b % 16) ∷ []
    else b ∷ []

-- The loop over the characters, and the quote at the end.
unfoldable pub escaped : Text → Text
unfolding escape
escaped [] = 34 ∷ []
escaped (b ∷ s) = escape b ++ escaped s

unfoldable pub canonical_string : Text → Text
unfolding escaped
canonical_string s = 34 ∷ escaped s

-- `keys.sort()`, of the keys with the texts of their fields.
unfoldable pub place_field : Text → Text → List (Text × Text) → List (Text × Text)
place_field k t [] = (k, t) ∷ []
place_field k t ((j, u) ∷ rest) =
    let more = place_field k t rest in if lex j k then (j, u) ∷ more else (k, t) ∷ (j, u) ∷ rest

unfoldable pub sort_fields : List (Text × Text) → List (Text × Text)
unfolding place_field
sort_fields [] = []
sort_fields ((k, t) ∷ rest) = place_field k t (sort_fields rest)

unfoldable pub texts_of : List (Text × Text) → List Text
texts_of [] = []
texts_of ((k, t) ∷ rest) = t ∷ texts_of rest

-- `items.join(",")`
unfoldable pub join : List Text → Text
join [] = []
join (t ∷ []) = t
join (t ∷ u ∷ rest) = t ++ (44 ∷ join (u ∷ rest))

module _ ⦃l : JsonLibrary⦄ where
  unfoldable pub canonical_number : Number → Text
  unfolding has_exponent to_lowercase
  canonical_number (unsigned n) = decimal n
  canonical_number (negative n) = ascii "-" ++ decimal n
  canonical_number (float bits) =
      if is_special bits
      then ascii "null"
      else if is_zero bits
      then ascii "0"
      else if has_exponent (l.display_f64 bits)
      then to_lowercase (l.display_f64 bits)
      else l.display_f64 bits

  unfoldable mutual
    unfolding canonical_number canonical_string sort_fields texts_of join

    pub canonical_json : Json → Text
    canonical_json null = ascii "null"
    canonical_json (boolean true) = ascii "true"
    canonical_json (boolean false) = ascii "false"
    canonical_json (number n) = canonical_number n
    canonical_json (string s) = canonical_string s
    canonical_json (array items) = 91 ∷ (join (canonical_items items) ++ (93 ∷ []))
    canonical_json (object fields) =
        123 ∷ (join (texts_of (sort_fields (canonical_fields fields))) ++ (125 ∷ []))

    pub canonical_items : Items → List Text
    canonical_items no_items = []
    canonical_items (item v rest) = canonical_json v ∷ canonical_items rest

    -- Each key with `"key":value`.
    pub canonical_fields : Fields → List (Text × Text)
    canonical_fields no_fields = []
    canonical_fields (field k v rest) =
        (k, canonical_string k ++ (58 ∷ canonical_json v)) ∷ canonical_fields rest

  module _ ⦃c : Crypto⦄ where
    unfoldable pub fact_id_from_json : Json → FactId
    fact_id_from_json value = c.sha256 (canonical_json value)

    -- The text of the parser's error is not kept.
    unfoldable pub fact_id_from_str : Text → Option FactId
    unfolding fact_id_from_json
    fact_id_from_str s = elim (l.parse s) [
      | none ↦ none
      | some value ↦ some (fact_id_from_json value)
    ]

    -- `FactSet::from_json_values`
    unfoldable pub from_json_values : List Json → FactSet
    unfolding fact_id_from_json
    from_json_values values =
        let ids = OrdSet.collect (map fact_id_from_json values) in
        record { ids = ids; root = compute_set_root ids }
