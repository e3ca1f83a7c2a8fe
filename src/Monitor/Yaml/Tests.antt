-- ===== src/Monitor/Yaml/Tests.antt =====
-- Runs of the YAML subset parser, and its theorems at concrete inputs.
use robotics_pacific_rim.Base.{◌≡◌, refl, some, List, [], ◌∷◌, Text, text, join}
use robotics_pacific_rim.Base.Result.{ok, err}
use robotics_pacific_rim.Monitor.Yaml.Value.{
  YamlObject, string, number, object, array, no_entry, entry, no_item, item,
}
use robotics_pacific_rim.Monitor.Yaml.Parse.{
  mapping, at_key, at_end, Frame, root_frame, parse_lines, parse_yaml_subset, parse_runs,
}
use robotics_pacific_rim.Monitor.Yaml.Stack.{IsStack}
use robotics_pacific_rim.Monitor.Yaml.Parsed.{parse_lines-IsStack}

abbrev lines : List Text → Text
lines ls = join (10 ∷ []) ls

abbrev sample : Text
sample = lines (
    text "topics:"
    ∷ text "  pose: # a comment"
    ∷ text "    type: 'Pose'"
    ∷ text "    bindings:"
    ∷ text "      - transport: nats"
    ∷ text "        subject: \"#1\""
    ∷ text "      - 007"
    ∷ text "  size: -3"
    ∷ [])

abbrev parsed : YamlObject
parsed =
    entry (text "topics")
      (object (
        entry (text "pose")
          (object (
            entry (text "type") (string (text "Pose")) (
              entry (text "bindings")
                (array (
                  item
                    (object (
                      entry (text "transport") (string (text "nats"))
                        (entry (text "subject") (string (text "#1")) no_entry)))
                    (item (number (text "7")) no_item)))
                no_entry)))
          (entry (text "size") (number (text "-3")) no_entry)))
      no_entry

sample_parses : parse_yaml_subset (λ s. s) sample ≡ ok parsed
unfolding parse_runs
sample_parses = refl

abbrev sample_lines : List Text
sample_lines = text "a:" ∷ text "  b: 1" ∷ []

abbrev inner : Frame
inner = record {
  indent = some 0;
  value = mapping (entry (text "b") (number (text "1")) no_entry);
  slot = at_end;
}

abbrev outer : Frame
outer = record root_frame {
  value = mapping (entry (text "a") (object no_entry) no_entry);
  slot = at_key (text "a");
}

lines_parse : parse_lines (λ s. s) sample_lines (root_frame ∷ []) ≡ ok (inner ∷ outer ∷ [])
unfolding parse_runs
lines_parse = refl

parse_lines-IsStack_example : IsStack (inner ∷ outer ∷ [])
parse_lines-IsStack_example =
    parse_lines-IsStack (λ s. s) sample_lines (root_frame ∷ []) (inner ∷ outer ∷ []) (refl, refl)
      lines_parse

list_outside :
    parse_yaml_subset (λ s. s) (text "- a")
    ≡ err (text "YAML subset parser found a list item outside a list")
unfolding parse_runs
list_outside = refl
