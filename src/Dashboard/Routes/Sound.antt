-- ===== src/Dashboard/Routes/Sound.antt =====
-- What every route that is read from a configuration satisfies
-- (dashboard/packages/api/src/routers/dashboard.ts).
use robotics_pacific_rim.Base.{ℕ, suc, Option, none, some, List, [], ◌∷◌, All, Text}
use robotics_pacific_rim.Dashboard.Lines.{ParsedLine, split_lines, parsed_communication_line}
use robotics_pacific_rim.Dashboard.Routes.{CommunicationParseState}
use robotics_pacific_rim.Dashboard.Routes.Parse.{
  parse_line, parse_lines, start_state, parse_communication_routes,
}
use robotics_pacific_rim.Dashboard.Routes.Kept.{IsFinished, IsState, complete_route-IsState}
use robotics_pacific_rim.Dashboard.Routes.Steps.{line-IsState}

module _ (config_path module_name : Text) where
  parse_line-IsState :
      (state : CommunicationParseState) (line : Option ParsedLine)
      → IsState config_path module_name state
      → IsState config_path module_name (parse_line config_path module_name state line)
  parse_line-IsState state none h = h
  parse_line-IsState state (some line) h = line-IsState config_path module_name state h line

  parse_lines-IsState :
      (n : ℕ) (lines : List Text) (state : CommunicationParseState)
      → IsState config_path module_name state
      → IsState config_path module_name (parse_lines config_path module_name n lines state)
  unfolding parse_lines
  parse_lines-IsState n [] state h = h
  parse_lines-IsState n (raw ∷ lines) state h =
      parse_lines-IsState (suc n) lines _
        (parse_line-IsState state (parsed_communication_line raw n) h)

-- Whatever the text, every route that is read from it names the file and the module it was read
-- for, has the id made of the file, its section and its name, and the kind of that section; each of
-- its bindings has a transport, no two the same one; and its status is the one that its number of
-- bindings gives.
pub parse_communication_routes-IsFinished :
    (t config_path module_name : Text)
    → All
        (IsFinished config_path module_name)
        (parse_communication_routes t config_path module_name)
unfolding parse_communication_routes
parse_communication_routes-IsFinished t config_path module_name =
    (complete_route-IsState config_path module_name
      (parse_lines config_path module_name 0 (split_lines t) start_state)
      (parse_lines-IsState config_path module_name 0 (split_lines t) start_state (tt, tt))).1
