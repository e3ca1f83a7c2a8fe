-- ===== src/Dashboard/Details/Sound.antt =====
-- What every item of a module's detail page satisfies
-- (dashboard/packages/api/src/routers/dashboard.ts).
use robotics_pacific_rim.Base.{ℕ, suc, Option, none, some, List, [], ◌∷◌, All, Text}
use robotics_pacific_rim.Dashboard.Lines.{ParsedLine, split_lines, parsed_communication_line}
use robotics_pacific_rim.Dashboard.Details.Parse.{
  DetailCommunicationParseState, DetailParseLayout, create_detail_parse_state,
}
use robotics_pacific_rim.Dashboard.Details.Items.{
  detail_line, detail_lines, parse_detail_communication_items,
}
use robotics_pacific_rim.Dashboard.Details.Drafts.{IsItem, IsDetailState, complete-IsDetailState}
use robotics_pacific_rim.Dashboard.Details.Steps.{line-IsDetailState}

module _ (t path : Text) (layout : DetailParseLayout) where
  detail_line-IsDetailState :
      (state : DetailCommunicationParseState) (line : Option ParsedLine)
      → IsDetailState t path layout state
      → IsDetailState t path layout (detail_line t path layout state line)
  detail_line-IsDetailState state none h = h
  detail_line-IsDetailState state (some line) h = line-IsDetailState t path layout state h line

  detail_lines-IsDetailState :
      (n : ℕ) (lines : List Text) (state : DetailCommunicationParseState)
      → IsDetailState t path layout state
      → IsDetailState t path layout (detail_lines t path layout n lines state)
  unfolding detail_lines
  detail_lines-IsDetailState n [] state h = h
  detail_lines-IsDetailState n (raw ∷ lines) state h =
      detail_lines-IsDetailState (suc n) lines _
        (detail_line-IsDetailState state (parsed_communication_line raw n) h)

-- Under any layout and for any text, every item that is read names the file and the source, has a
-- block of the text as its definition, the kind of a section, and an id made of source, file, kind
-- and name; each of its bindings has a transport, no two the same one; its transports are those of
-- its bindings, in their order; and its transport families, without repetition, are exactly the
-- families of its transports.
pub parse_detail_communication_items-IsItem :
    (t path : Text) (layout : DetailParseLayout)
    → All (IsItem t path layout) (parse_detail_communication_items t path layout)
unfolding parse_detail_communication_items create_detail_parse_state
parse_detail_communication_items-IsItem t path layout =
    (complete-IsDetailState t path layout
      (detail_lines t path layout 0 (split_lines t)
        (create_detail_parse_state layout.starts_in_communication))
      (detail_lines-IsDetailState t path layout 0 (split_lines t)
        (create_detail_parse_state layout.starts_in_communication) (tt, tt))).1
