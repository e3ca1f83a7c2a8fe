-- ===== src/Monitor/Format.antt =====
-- The texts of the monitor's screen that hold no measured value (monitor/pr-monitor/src/format.ts).
use Prim.Native.Nat.{min, max}
use robotics_pacific_rim.Base.{
  ℕ, ◌+◌, ◌-◌, ◌/◌, ◌<◌, String, ◌≡◌, inl, inr, Bool, true, false, not, ◌&&◌, ◌||◌, List, [], ◌∷◌,
  ◌++◌, arith, leb, if◌then◌else◌, leb→le, Bool-cases, or_else, length, take, replicate, get_elem?,
  select, length-append, length-replicate, length-take, Text, text, is_empty, before,
}
use robotics_pacific_rim.Base.Decimal.{show_nat}
use robotics_pacific_rim.Monitor.Types.{
  publisher, subscriber, server, client, setter, getter, has_bits, SchemaType, flatbuffers, blob,
  ProcessInfo, EndpointInfo, MonitorOptions,
}

abbrev spaces : ℕ → Text
spaces n = replicate n b' '

length-spaces_lem : (n : ℕ) → length (spaces n) ≡ n
length-spaces_lem n = length-replicate n _

-- `value.slice(0, width)` is `take`.
unfoldable pub pad_right : Text → ℕ → Text
pad_right value width =
    if leb width (length value) then take width value else value ++ spaces (width - length value)

unfoldable pub pad_left : Text → ℕ → Text
pad_left value width =
    if leb width (length value) then take width value else spaces (width - length value) ++ value

unfoldable pub center : Text → ℕ → Text
center value width =
    let left = (width - length value) / 2 in
    if leb width (length value)
    then take width value
    else spaces left ++ (value ++ spaces (width - length value - left))

unfoldable pub clamp : ℕ → ℕ → ℕ → ℕ
clamp value low high = max low (min high value)

short_lem : (a b : ℕ) → leb a b ≡ false → b < a
short_lem a b h = ground arith

length-pad_right_lem : (value : Text) (width : ℕ) → length (pad_right value width) ≡ width
unfolding pad_right
length-pad_right_lem value width = elim (Bool-cases (leb width (length value))) [
  | inl long ↦ rw long (length-take width value (leb→le width (length value) long))
  | inr short ↦ rw short (
      omega (
        arith,
        length-append value (spaces (width - length value)),
        length-spaces_lem (width - length value),
        short_lem width (length value) short,
      ))
]

length-pad_left_lem : (value : Text) (width : ℕ) → length (pad_left value width) ≡ width
unfolding pad_left
length-pad_left_lem value width = elim (Bool-cases (leb width (length value))) [
  | inl long ↦ rw long (length-take width value (leb→le width (length value) long))
  | inr short ↦ rw short (
      omega (
        arith,
        length-append (spaces (width - length value)) value,
        length-spaces_lem (width - length value),
        short_lem width (length value) short,
      ))
]

length-center_lem : (value : Text) (width : ℕ) → length (center value width) ≡ width
unfolding center
length-center_lem value width = elim (Bool-cases (leb width (length value))) [
  | inl long ↦ rw long (length-take width value (leb→le width (length value) long))
  | inr short ↦
      let gap = width - length value in
      rw short (
        omega (
          arith,
          length-append (spaces (gap / 2)) (value ++ spaces (gap - gap / 2)),
          length-append value (spaces (gap - gap / 2)),
          length-spaces_lem (gap / 2),
          length-spaces_lem (gap - gap / 2),
          short_lem width (length value) short,
        ))
]

-- A padded or centred cell has the width that was asked for, whether it is filled up or cut.
length-pad :
    (value : Text) (width : ℕ)
    → (length (pad_right value width) ≡ width)
      × (length (pad_left value width) ≡ width)
      × (length (center value width) ≡ width)
length-pad value width = (
  length-pad_right_lem value width,
  length-pad_left_lem value width,
  length-center_lem value width,
)

abbrev when_bit : ℕ → ℕ → String → List Text
when_bit type bit label = if has_bits type bit then text label ∷ [] else []

-- The parts of `typeLabel` after its filter.
unfoldable pub type_parts : ℕ → List Text
type_parts type =
    (if has_bits type publisher then text "Pub" else text "---")
    ∷ (when_bit type subscriber "Sub"
        ++ (when_bit type server "Ser"
            ++ (when_bit type client "Cli"
                ++ (when_bit type setter "Set" ++ when_bit type getter "Get"))))

abbrev part : ℕ → ℕ → Text
part type i = or_else (get_elem? (type_parts type) i) (text "---")

unfoldable pub type_label : {R : Type 0} → ℕ → Bool → List (ProcessInfo R) → Text
type_label type false processes = part type 0 ++ (b'|' ∷ part type 1)
type_label type true processes =
    let left = length (select (λ p. has_bits p.type (publisher + server + setter)) processes) in
    part type 0 ++ (show_nat left ++ (b'|' ∷ (part type 1 ++ show_nat (length processes - left))))

unfoldable pub process_type_label : ℕ → Text
process_type_label type =
    if has_bits type publisher
    then text "Publisher"
    else if has_bits type subscriber
    then text "Subscriber"
    else if has_bits type server
    then text "Server"
    else if has_bits type client
    then text "Client"
    else if has_bits type getter
    then text "Getter"
    else if has_bits type setter
    then text "Setter"
    else text "Endpoint"

abbrev is_blob : SchemaType → Bool
is_blob blob = true
is_blob _ = false

unfoldable pub build_inspect_command : {R : Type 0} → EndpointInfo R → MonitorOptions → Text
build_inspect_command endpoint options =
    let getting =
      has_bits endpoint.type getter
      || (has_bits endpoint.type setter && not (has_bits endpoint.type publisher)) in
    let encoding =
      if options.blob_mode || is_blob endpoint.schema_type
      then text "blob"
      else endpoint.ser_type in
    let schema_dir : Text = elim endpoint.schema_type [
      | flatbuffers ↦ options.fbs_dir
      | _ ↦ options.proto_dir
    ] in
    text "pr inspect --transport "
    ++ (before (text "://") endpoint.url
        ++ (text " --route "
            ++ (endpoint.url
                ++ (text " --encoding "
                    ++ (encoding
                        ++ ((if getting then text " --getter" else [])
                            ++ ((if is_empty schema_dir
                                  then []
                                  else text " --schema-dir " ++ schema_dir)
                                ++ (if is_empty options.proto_args
                                    then []
                                    else b' ' ∷ options.proto_args))))))))
