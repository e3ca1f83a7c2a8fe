-- ===== src/Monitor/Collectors/Domains.antt =====
-- ROS domain ids and runtime contexts (monitor/pr-monitor/src/collectors.ts).
use robotics_pacific_rim.Base.{
  ℕ, zero, suc, ◌+◌, ◌-◌, Bool, true, false, not, ◌&&◌, ◌||◌, List, [], ◌∷◌, ◌++◌, map, leb, ◌==◌,
  if◌then◌else◌, length, take, drop, all, select, Text, text, has_text, is_empty, or_text, trim,
  is_digit, is_letter, before,
}
use robotics_pacific_rim.Base.Assoc.{Assoc, values}
use robotics_pacific_rim.Base.Decimal.{show_nat, read_nat}
use robotics_pacific_rim.Monitor.Model.State.{ensure_key}
use robotics_pacific_rim.Monitor.Model.View.{split_pieces}

pub record RosRuntimeContext : Type 0 where
  pub domain_id : Text
  pub ros_distro : Text
  pub source : Text

abbrev pub is_number : Text → Bool
is_number s = not (is_empty s) && all is_digit s

unfoldable pub normalize_domain_id : Text → Text
normalize_domain_id value =
    let trimmed = trim value in
    if is_number trimmed && leb (read_nat trimmed) 232 then show_nat (read_nat trimmed) else []

-- `start`, `start + 1` and so on, `count` of them.
unfoldable pub domains_from : ℕ → ℕ → List Text
domains_from start zero = []
domains_from start (suc count) = show_nat start ∷ domains_from (start + 1) count

-- What one part of a list of domain ids adds: a range of at most 65 ids, or one id.
unfoldable pub part_domain_ids : Text → List Text
part_domain_ids part =
    let first = before (text "-") part in
    let last = drop (length first + 1) part in
    let start = read_nat first in
    let end = read_nat last in
    let single = normalize_domain_id part in
    if is_number first && is_number last
    then (if leb start end && leb (end - start) 64
        then domains_from start (end - start + 1)
        else [])
    else if is_empty single
    then []
    else single ∷ []

-- `[...new Set(out)]`.
unfoldable pub unique : List Text → List Text → List Text
unique seen [] = seen
unique seen (t ∷ ts) = unique (if has_text t seen then seen else seen ++ t ∷ []) ts

unfoldable pub all_domain_ids : List Text → List Text
all_domain_ids [] = []
all_domain_ids (p ∷ ps) = part_domain_ids p ++ all_domain_ids ps

unfoldable pub parse_domain_ids : Text → List Text
parse_domain_ids value =
    unique [] (all_domain_ids (select (λ t. not (is_empty t)) (map trim (split_pieces [] value))))

-- A unit of `[a-zA-Z0-9_.-]`.
abbrev pub is_name_unit : ℕ → Bool
is_name_unit c = is_letter c || is_digit c || c == b'_' || c == b'.' || c == b'-'

-- `replace(/[^a-zA-Z0-9_.-]+/g, "-")`: one dash for a run of other units.
unfoldable pub dash_runs : Bool → Text → Text
dash_runs in_run [] = []
dash_runs in_run (c ∷ s) =
    let kept = c ∷ dash_runs false s in
    let run = dash_runs true s in
    if is_name_unit c then kept else (if in_run then run else b'-' ∷ run)

unfoldable pub drop_dashes : Text → Text
drop_dashes [] = []
drop_dashes (c ∷ s) = let rest = drop_dashes s in if c == b'-' then rest else c ∷ s

unfoldable pub drop_end_dashes : Text → Text
drop_end_dashes [] = []
drop_end_dashes (c ∷ s) =
    let rest = drop_end_dashes s in if c == b'-' && is_empty rest then [] else c ∷ rest

unfoldable pub sanitize_container_name_part : Text → Text
sanitize_container_name_part value =
    or_text (drop_end_dashes (drop_dashes (dash_runs false value))) (text "default")

unfoldable pub normalize_ros_distro : Text → Text
normalize_ros_distro value = sanitize_container_name_part (or_text (trim value) (text "humble"))

abbrev pub key_of : RosRuntimeContext → Text
key_of c = c.domain_id ++ (b':' ∷ c.ros_distro)

unfoldable pub normal_context : RosRuntimeContext → RosRuntimeContext
normal_context c = record c {
  domain_id = normalize_domain_id c.domain_id;
  ros_distro = normalize_ros_distro c.ros_distro;
}

unfoldable pub contexts_by_key :
    Assoc RosRuntimeContext → List RosRuntimeContext → Assoc RosRuntimeContext
contexts_by_key by_key [] = by_key
contexts_by_key by_key (c ∷ cs) =
    let normal = normal_context c in
    contexts_by_key
      (if is_empty normal.domain_id then by_key else ensure_key (key_of normal) normal by_key) cs

unfoldable pub dedupe_ros_runtime_contexts : List RosRuntimeContext → List RosRuntimeContext
dedupe_ros_runtime_contexts contexts = take 16 (values (contexts_by_key [] contexts))
