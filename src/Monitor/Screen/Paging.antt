-- ===== src/Monitor/Screen/Paging.antt =====
-- The page that is shown and the line that is selected (monitor/pr-monitor/src/index.ts).
use native.Mathlib.Nat.{add-div_right, div-mul-le_self, lt-div-mul-add, le-div_iff_mul-le}
use robotics_pacific_rim.Base.{
  ℕ, ◌+◌, ◌-◌, ◌*◌, ◌/◌, ◌≤◌, ◌<◌, ◌≡◌, refl, ap₂, inl, inr, false, Option, none, some, arith, ltb,
  ◌==◌, if◌then◌else◌, Bool-cases, length,
}
use robotics_pacific_rim.Monitor.Types.{MonitorOptions, Host, to_nat}
use robotics_pacific_rim.Monitor.Format.{clamp}
use robotics_pacific_rim.Monitor.Model.State.{MonitorModel}
use robotics_pacific_rim.Monitor.Model.View.{
  visible_endpoints, is_visible, passes_urls, passes_terms, passes_pubsub, is_active, by_activity,
}
use robotics_pacific_rim.Monitor.Screen.Keys.{
  Delta, move_selection, selection_rows, content_rows, terminal_rows, pages_of, render_clamp,
}

last_page : (total rows : ℕ) → 0 < total → 0 < rows → pages_of total rows - 1 ≡ (total - 1) / rows
last_page total rows t r =
    let e : total + (rows - 1) ≡ total - 1 + rows = omega (arith, t, r) in
    rw (e, add-div_right (total - 1) r) (omega arith)

page_mono : (i j rows : ℕ) → 0 < rows → i ≤ j → i / rows ≤ j / rows
page_mono i j rows r h = (le-div_iff_mul-le r).1 (omega (arith, div-mul-le_self i rows, h))

-- The page of a moved line, after the next frame, is the page of the line that the frame selects.
page_after :
    (line total rows : ℕ)
    → 0 < total
    → 0 < rows
    → clamp (line / rows) 0 (pages_of total rows - 1)
      ≡ (if ltb line total then line else total - 1) / rows
unfolding clamp
page_after line total rows t r = elim (Bool-cases (ltb line total)) [
  | inl inside ↦
      rw (inside, last_page total rows t r)
        (omega (arith, page_mono line (total - 1) rows r (ground arith)))
  | inr outside ↦
      rw (outside, last_page total rows t r)
        (omega (arith, page_mono (total - 1) line rows r (ground arith)))
]

module _ (host : Host) where
  open host use {Real}

  abbrev total : MonitorModel Real → ℕ
  total m = length (visible_endpoints host m)

  -- The list does not depend on the page and the selection.
  total-placed :
      (m : MonitorModel Real) (page : ℕ) (line : Option ℕ)
      → total (record m { current_page = page; selected_line = line }) ≡ total m
  unfolding visible_endpoints is_visible passes_urls passes_terms passes_pubsub is_active
      by_activity
  total-placed m page line = refl

  -- A line is selected, the list has it, and it is on the page that a frame of this height shows.
  pub record IsShown (height : ℕ) (m : MonitorModel Real) : Type 0 where
    pub line : ℕ
    pub selected : m.selected_line ≡ some line
    pub in_list : line < total m
    pub from_start : m.current_page * content_rows host m.options height ≤ line
    pub to_end :
        line
        < m.current_page * content_rows host m.options height + content_rows host m.options height

  content_rows-pos : (o : MonitorOptions) (height : ℕ) → 0 < content_rows host o height
  unfolding content_rows terminal_rows
  content_rows-pos o height = omega arith

  content-selection :
      (o : MonitorOptions) (height : ℕ)
      → to_nat o.rows ≤ height
      → selection_rows host o height ≡ content_rows host o height
  unfolding content_rows selection_rows terminal_rows
  content-selection o height h = ground arith

  line_after : ℕ → ℕ → ℕ
  line_after line n = if ltb line n then line else n - 1

  line_after-if :
      (line n : ℕ)
      → 0 < n
      → (if ltb line n then some line else (if n == 0 then none else some (n - 1)))
        ≡ some (line_after line n)
  unfolding line_after
  line_after-if line n h = ground arith

  -- What a frame makes of a selected line.
  render_clamp-placed :
      (m : MonitorModel Real) (height line : ℕ)
      → 0 < total m
      → m.detail_view ≡ none
      → render_clamp host height (record m {
        current_page = line / content_rows host m.options height;
        selected_line = some line;
      })
        ≡ record m {
          current_page = line_after line (total m) / content_rows host m.options height;
          selected_line = some (line_after line (total m));
        }
  unfolding render_clamp line_after visible_endpoints by_activity is_visible is_active
  render_clamp-placed m height line t d =
      let rows = content_rows host m.options height in
      rw (total-placed m (line / rows) (some line), d)
        (ap₂ (λ p l. record m { detail_view = none; current_page = p; selected_line = l })
          (page_after line (total m) rows t (content_rows-pos m.options height))
          (line_after-if line (total m) t))

  placed-IsShown :
      (m : MonitorModel Real) (height line : ℕ)
      → 0 < total m
      → m.detail_view ≡ none
      → IsShown height (
          render_clamp host height (record m {
            current_page = line / content_rows host m.options height;
            selected_line = some line;
          }))
  unfolding line_after
  placed-IsShown m height line t d =
      let rows = content_rows host m.options height in
      let r = content_rows-pos m.options height in
      let shown = line_after line (total m) in
      rw (render_clamp-placed m height line t d) (record {
        line = shown;
        selected = refl;
        in_list = rw (total-placed m (shown / rows) (some shown)) (ground arith);
        from_start = div-mul-le_self shown rows;
        to_end = lt-div-mul-add r;
      })

  -- After a selection key and the next frame of the same height, a line is selected that the list
  -- has and that the frame shows, on whichever page the list was before. (The list is not empty, no
  -- detail view is open, and the rows asked for do not exceed the terminal's.)
  pub move_selection-IsShown :
      (delta : Delta) (height : ℕ) (m : MonitorModel Real)
      → 0 < total m
      → m.detail_view ≡ none
      → to_nat m.options.rows ≤ height
      → IsShown height (render_clamp host height (move_selection host delta height m))
  unfolding move_selection
  move_selection-IsShown delta height m t d h =
      let e : (total m == 0) ≡ false = ground arith in
      rw (e, content-selection m.options height h) (placed-IsShown m height _ t d)
