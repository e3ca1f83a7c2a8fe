-- ===== src/Monitor/Yaml/Parse.antt =====
-- Parsing the YAML subset (monitor/pr-monitor/src/yaml.ts). An open container stands in the code
-- in its parent already; here its parent keeps a slot for it, and it is put there when it is
-- closed, which is when the code drops its last reference to it. Keys are not array indices.
use robotics_pacific_rim.Base.{
  ℕ, ◌+◌, ◌-◌, Bool, true, false, not, ◌&&◌, ◌||◌, Option, none, some, List, [], ◌∷◌, ◌++◌, leb,
  ◌==◌, if◌then◌else◌, length, drop, all, Text, text, eq_text, is_empty, trim_start, trim_end, trim,
  starts_with, includes, is_digit, before, string_runs,
}
use robotics_pacific_rim.Base.Result.{Result, ok, err, ◌>>=◌}
use robotics_pacific_rim.Base.Decimal.{show_nat, read_nat}
use robotics_pacific_rim.Monitor.Yaml.Value.{
  YamlValue, YamlObject, YamlArray, string, number, boolean, null, object, array, no_entry, entry,
  no_item, item,
}

-- `text.split(/\r?\n/)`.
unfoldable pub split_lines : Text → Text → List Text
split_lines line [] = line ∷ []
split_lines line (c ∷ []) = if c == 10 then line ∷ [] ∷ [] else (line ++ c ∷ []) ∷ []
split_lines line (c ∷ d ∷ s) =
    let after_both = line ∷ split_lines [] s in
    let after_one = line ∷ split_lines [] (d ∷ s) in
    let longer = split_lines (line ++ c ∷ []) (d ∷ s) in
    if c == 13 && d == 10 then after_both else (if c == 10 then after_one else longer)

-- `stripComment`: in single quotes, in double quotes, or in neither.
unfoldable pub strip_comment : Bool → Bool → Text → Text
strip_comment in_single in_double [] = []
strip_comment in_single in_double (c ∷ s) =
    if c == 39 && not in_double
    then c ∷ strip_comment (not in_single) in_double s
    else if c == 34 && not in_single
    then c ∷ strip_comment in_single (not in_double) s
    else if c == b'#' && not in_single && not in_double
    then []
    else c ∷ strip_comment in_single in_double s

unfoldable pub indent_of : Text → ℕ
indent_of raw = length raw - length (trim_start raw)

-- The line without its comment and the space at its end.
unfoldable pub content_of : Text → Text
content_of raw = trim_end (strip_comment false false raw)

abbrev is_quote : ℕ → Bool
is_quote c = c == 34 || c == 39

unfoldable pub drop_last_quote : Text → Text
drop_last_quote [] = []
drop_last_quote (c ∷ s) =
    let rest = drop_last_quote s in if is_quote c && is_empty s then [] else c ∷ rest

-- `value.replace(/^["']|["']$/g, "")`.
unfoldable pub unquoted : Text → Text
unquoted [] = []
unquoted (c ∷ s) = if is_quote c then drop_last_quote s else drop_last_quote (c ∷ s)

abbrev is_digits : Text → Bool
is_digits s = not (is_empty s) && all is_digit s

abbrev unsigned : Text → Text
unsigned [] = []
unsigned (c ∷ s) = if c == b'-' then s else c ∷ s

abbrev is_negative : Text → Bool
is_negative s = starts_with (text "-") s

-- `String(Number.parseInt(s, 10))` for a text that matches `/^-?\d+$/`.
unfoldable pub integer_text : Text → Text
integer_text s =
    let n = read_nat (unsigned s) in
    if is_negative s && not (n == 0) then b'-' ∷ show_nat n else show_nat n

abbrev is_decimal : Text → Bool
is_decimal s =
    let whole = before (text ".") (unsigned s) in
    is_digits whole && is_digits (drop (length whole + 1) (unsigned s))

-- `parseKeyValue`.
unfoldable pub parse_key_value : Text → Result Text (Text × Text)
parse_key_value t =
    let key = before (text ":") t in
    if includes (text ":") t
    then ok (trim key, trim (drop (length key + 1) t))
    else err (text "YAML subset parser expected key/value: " ++ t)

-- `parent[key] = value`: an old key keeps its place.
unfoldable pub set_field : Text → YamlValue → YamlObject → YamlObject
set_field key value no_entry = entry key value no_entry
set_field key value (entry k v rest) =
    let other = set_field key value rest in
    if eq_text k key then entry k value rest else entry k v other

unfoldable pub push_item : YamlValue → YamlArray → YamlArray
push_item value no_item = item value no_item
push_item value (item v rest) = item v (push_item value rest)

pub data Container : Type 0 where
  mapping : YamlObject → Container
  sequence : YamlArray → Container

abbrev pub value_of : Container → YamlValue
value_of (mapping o) = object o
value_of (sequence a) = array a

-- Where an open child of a container will stand.
pub data Slot : Type 0 where
  at_key : Text → Slot
  at_end : Slot

-- An entry of the stack; the root's indent of -1 is none.
pub record Frame : Type 0 where
  pub indent : Option ℕ
  pub value : Container
  pub slot : Slot

-- Put a closed child into its parent.
unfoldable pub plug : Frame → Frame → Frame
plug child parent = elim parent.slot as (λ x. Frame) [
  | at_key key ↦ elim parent.value as (λ x. Frame) [
    | mapping o ↦ record parent { value = mapping (set_field key (value_of child.value) o) }
    | sequence a ↦ parent
  ]
  | at_end ↦ elim parent.value as (λ x. Frame) [
    | mapping o ↦ parent
    | sequence a ↦ record parent { value = sequence (push_item (value_of child.value) a) }
  ]
]

-- `indent <= top.indent`.
abbrev pub closes : ℕ → Frame → Bool
closes indent f = elim f.indent [ none ↦ false | some i ↦ leb indent i ]

-- The loop that pops; its first frame is the top.
unfoldable pub pop_while : ℕ → Frame → List Frame → List Frame
pop_while indent f [] = if closes indent f then [] else f ∷ []
pop_while indent f (g ∷ fs) =
    let rest = pop_while indent (plug f g) fs in if closes indent f then rest else f ∷ g ∷ fs

unfoldable pub pop_all : ℕ → List Frame → List Frame
pop_all indent [] = []
pop_all indent (f ∷ fs) = pop_while indent f fs

unfoldable pub next_child_is_list : List Text → ℕ → Bool
next_child_is_list [] parent_indent = false
next_child_is_list (raw ∷ lines) parent_indent =
    let later = next_child_is_list lines parent_indent in
    if is_empty (trim (content_of raw))
    then later
    else if leb (indent_of raw) parent_indent
    then false
    else starts_with (text "- ") (trim (content_of raw))

abbrev pub opened : ℕ → Container → Frame
opened indent value = record { indent = some indent; value = value; slot = at_end }

-- `String(Number.parseFloat(s))` is a parameter.
module _ (float_text : Text → Text) where
  unfoldable pub parse_scalar : Text → YamlValue
  parse_scalar value =
      let s = unquoted value in
      if eq_text s (text "{}")
      then object no_entry
      else if eq_text s (text "[]")
      then array no_item
      else if eq_text s (text "null") || eq_text s (text "~")
      then null
      else if eq_text s (text "true")
      then boolean true
      else if eq_text s (text "false")
      then boolean false
      else if is_digits (unsigned s)
      then number (integer_text s)
      else if is_decimal s
      then number (float_text s)
      else string s

  unfoldable pub parse_list_item : Text → Result Text YamlValue
  parse_list_item t =
      if is_empty t
      then ok (object no_entry)
      else if includes (text ":") t
      then (parse_key_value t >>= λ pair. ok (object (entry pair.0 (parse_scalar pair.1) no_entry)))
      else ok (parse_scalar t)

  -- A list item under the top of the stack; an item that is a container is opened.
  unfoldable pub add_item : ℕ → YamlValue → List Frame → Result Text (List Frame)
  add_item indent child [] = err (text "YAML subset parser found a list item outside a list")
  add_item indent child (f ∷ fs) = elim f.value [
    | mapping o ↦ err (text "YAML subset parser found a list item outside a list")
    | sequence a ↦ elim child [
      | object o ↦ ok (opened indent (mapping o) ∷ record f { slot = at_end } ∷ fs)
      | array b ↦ ok (opened indent (sequence b) ∷ record f { slot = at_end } ∷ fs)
      | string s ↦ ok (record f { value = sequence (push_item (string s) a) } ∷ fs)
      | number s ↦ ok (record f { value = sequence (push_item (number s) a) } ∷ fs)
      | boolean b ↦ ok (record f { value = sequence (push_item (boolean b) a) } ∷ fs)
      | null ↦ ok (record f { value = sequence (push_item null a) } ∷ fs)
    ]
  ]

  -- `assign` a scalar, or a new container, which is opened.
  unfoldable pub assign : Text → YamlValue → List Frame → Result Text (List Frame)
  assign key value [] = err (text "YAML subset parser can only assign keys inside mappings")
  assign key value (f ∷ fs) = elim f.value [
    | mapping o ↦ ok (record f { value = mapping (set_field key value o) } ∷ fs)
    | sequence a ↦ err (text "YAML subset parser can only assign keys inside mappings")
  ]

  unfoldable pub open_child : ℕ → Text → Container → List Frame → Result Text (List Frame)
  open_child indent key child [] =
      err (text "YAML subset parser can only assign keys inside mappings")
  open_child indent key child (f ∷ fs) = elim f.value [
    | mapping o ↦ ok (
        opened indent child
        ∷ record f { value = mapping (set_field key (value_of child) o); slot = at_key key }
        ∷ fs)
    | sequence a ↦ err (text "YAML subset parser can only assign keys inside mappings")
  ]

  -- One line that is not empty, with the lines after it.
  unfoldable pub parse_line : Text → List Text → List Frame → Result Text (List Frame)
  parse_line raw lines stack =
      let stripped = trim (content_of raw) in
      let indent = indent_of raw in
      let open_frames = pop_all indent stack in
      let child = if next_child_is_list lines indent then sequence no_item else mapping no_entry in
      if starts_with (text "- ") stripped
      then (parse_list_item (trim (drop 2 stripped)) >>= λ v. add_item indent v open_frames)
      else parse_key_value stripped >>= λ pair.
          if is_empty pair.1
          then open_child indent pair.0 child open_frames
          else assign pair.0 (parse_scalar pair.1) open_frames

  unfoldable pub parse_lines : List Text → List Frame → Result Text (List Frame)
  parse_lines [] stack = ok stack
  parse_lines (raw ∷ lines) stack =
      if is_empty (trim (content_of raw))
      then parse_lines lines stack
      else parse_line raw lines stack >>= parse_lines lines

-- The root, once all that is open is closed.
unfoldable pub close_all : Frame → List Frame → YamlObject
close_all f [] = elim f.value [ mapping o ↦ o | sequence a ↦ no_entry ]
close_all f (g ∷ fs) = close_all (plug f g) fs

abbrev pub root_frame : Frame
root_frame = record { indent = none; value = mapping no_entry; slot = at_end }

abbrev closed : List Frame → YamlObject
closed [] = no_entry
closed (f ∷ fs) = close_all f fs

unfoldable pub parse_yaml_subset : (Text → Text) → Text → Result Text YamlObject
parse_yaml_subset float_text t =
    parse_lines float_text (split_lines [] t) (root_frame ∷ []) >>= λ stack. ok (closed stack)

-- To be unfolded by tests that run this code.
unfoldable pub parse_runs : Unit {0}
unfolding string_runs show_nat read_nat split_lines strip_comment indent_of content_of
    drop_last_quote unquoted integer_text parse_key_value set_field push_item plug pop_while pop_all
    next_child_is_list parse_scalar parse_list_item add_item assign open_child parse_line
    parse_lines close_all parse_yaml_subset
parse_runs = tt
