-- ===== src/Monitor/Yaml/Value.antt =====
-- Values of the YAML subset and their readers (monitor/pr-monitor/src/yaml.ts). The objects of the
-- code are lists of entries here, in the order of `Object.entries`. A number is its text, which is
-- all that the readers take of it.
use robotics_pacific_rim.Base.{
  Bool, true, false, Option, none, some, List, [], ◌∷◌, if◌then◌else◌, Text, text, eq_text,
}

mutual
  pub data YamlValue : Type 0 where
    string number : Text → YamlValue
    boolean : Bool → YamlValue
    null : YamlValue
    object : YamlObject → YamlValue
    array : YamlArray → YamlValue

  pub data YamlObject : Type 0 where
    no_entry : YamlObject
    entry : Text → YamlValue → YamlObject → YamlObject

  pub data YamlArray : Type 0 where
    no_item : YamlArray
    item : YamlValue → YamlArray → YamlArray

-- `object[key]`, and `object?.[key]` where the object may be missing.
unfoldable pub field : Text → YamlObject → Option YamlValue
field key no_entry = none
field key (entry k v rest) = let other = field key rest in if eq_text k key then some v else other

unfoldable pub as_object : Option YamlValue → Option YamlObject
as_object (some (object o)) = some o
as_object _ = none

-- `asArray`, as a list.
unfoldable pub items : YamlArray → List YamlValue
items no_item = []
items (item v rest) = v ∷ items rest

unfoldable pub as_array : Option YamlValue → List YamlValue
as_array (some (array a)) = items a
as_array _ = []

unfoldable pub as_string : Option YamlValue → Text
as_string (some (string s)) = s
as_string (some (number s)) = s
as_string (some (boolean true)) = text "true"
as_string (some (boolean false)) = text "false"
as_string _ = []

-- `Object.entries`.
unfoldable pub entries : YamlObject → List (Text × YamlValue)
entries no_entry = []
entries (entry k v rest) = (k, v) ∷ entries rest

-- `asString(object.key)`, and the field of an object that may be missing.
unfoldable pub text_field : Text → YamlObject → Text
text_field key o = as_string (field key o)

unfoldable pub field_of : Text → Option YamlObject → Option YamlValue
field_of key none = none
field_of key (some o) = field key o
