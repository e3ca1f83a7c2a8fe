-- ===== src/Dashboard/Values.antt =====
-- Values of unknown type, read from JSON, and the robot profiles made of them
-- (dashboard/packages/api/src/routers/dashboard.ts).
pub mod Profiles
pub mod Projects
use robotics_pacific_rim.Base.{
  ℕ, zero, suc, ◌+◌, ◌-◌, ◌*◌, ◌/◌, ◌%◌, ◌^◌, ◌≤◌, ◌<◌, Ordering, String, ◌≡◌, refl, sym, ap, ap₂,
  ◌∙◌, subst, fun_ext, ◌≢◌, ◌↔◌, ◌⊎◌, inl, inr, Bool, true, false, not, ◌&&◌, ◌||◌, Option, none,
  some, List, [], ◌∷◌, ◌++◌, map, append_assoc, append-nil, map-append, arith, ltb, leb, ◌==◌,
  if◌then◌else◌, ltb→lt, lt→ltb, leb→le, ==_iff, tests, Bool-cases, Option-cases, and-eq-true,
  or_else, is_some, length, take, drop, replicate, get_elem?, all, any, find, select, Each,
  or_else-Each, if-keeps, length-append, length-replicate, length-take, length-drop, length-map,
  All, All-append, Text, text, eq_text, eq_text_iff, eq_text_refl, has_text, is_empty, or_text,
  is_space, trim_start, trim_end, trim, starts_with, includes, ends_with, lower_unit, lower,
  is_upper_letter, is_lower_letter, is_digit, is_letter, join, before, string_runs,
}

-- A JSON value, as `JSON.parse` leaves it: a number is finite, and `number` has its text; no key of an
-- object stands twice.
mutual
  pub data Json : Type 0 where
    null : Json
    boolean : Bool → Json
    number : Text → Json
    string : Text → Json
    array : Elements → Json
    object : Members → Json

  pub data Elements : Type 0 where
    end : Elements
    element : Json → Elements → Elements

  pub data Members : Type 0 where
    done : Members
    member : Text → Json → Members → Members

abbrev strings_of : Elements → List Text
strings_of end = []
strings_of (element (string s) elements) = s ∷ strings_of elements
strings_of (element json elements) = strings_of elements

-- `asStringArray`: the strings of an array.
abbrev pub as_string_array : Json → List Text
as_string_array (array elements) = strings_of elements
as_string_array json = []

abbrev list_of : Elements → List Json
list_of end = []
list_of (element json elements) = json ∷ list_of elements

abbrev pub as_unknown_array : Json → List Json
as_unknown_array (array elements) = list_of elements
as_unknown_array json = []

-- A value that is no object has no members.
abbrev pub as_record : Json → Members
as_record (object members) = members
as_record json = done

abbrev pub as_string : Json → Text
as_string (string s) = s
as_string json = []

abbrev pub as_boolean : Json → Bool → Bool
as_boolean (boolean b) fallback = b
as_boolean json fallback = fallback

abbrev pub as_finite_number : Json → Option Text
as_finite_number (number n) = some n
as_finite_number json = none

-- A member's value; `undefined`, for one that is missing, is read as `null` is by all of these.
unfoldable pub field : Members → Text → Json
unfolding eq_text
field done key = null
field (member k json members) key =
    let rest = field members key in if eq_text k key then json else rest

abbrev pub keys_of : Members → List Text
keys_of done = []
keys_of (member k json members) = k ∷ keys_of members
