-- ===== src/Dashboard/Operations/Frame.antt =====
-- What an edit of a communication item changes
-- (dashboard/packages/api/src/routers/dashboard.ts).
use robotics_pacific_rim.Base.{
  ◌≡◌, refl, ap, ◌∙◌, true, false, Option, none, some, List, [], ◌∷◌, Text, eq_text, eq_text_refl,
}
use robotics_pacific_rim.Base.Result.{Result, ok, err, bind-ok}
use robotics_pacific_rim.Base.Assoc.{Assoc, get, put, get-put}
use robotics_pacific_rim.Dashboard.Paths.{
  path_text, absolute_repo_path, absolute_repo_path-IsInside, IsInside, is_under,
}
use robotics_pacific_rim.Dashboard.Blocks.{replace_yaml_route_block, replace_top_level_yaml_block}
use robotics_pacific_rim.Dashboard.Details.{CommunicationSource, config, idl}
use robotics_pacific_rim.Dashboard.Operations.{
  OperationFailure, path_failure, edit_failure, no_such_file, CommunicationItemInput, edited_text,
  section_of_kind, DashboardState, lift, found, read_file, module_service_root, idl_root,
  write_communication_item,
}

lift-ok :
    {E A : Type 0} (f : E → OperationFailure) (r : Result E A) (a : A) → lift f r ≡ ok a → r ≡ ok a
lift-ok f (err e) a h = cc
lift-ok f (ok b) a h = cc

found-ok :
    {A : Type 0} (e : OperationFailure) (o : Option A) (a : A) → found e o ≡ ok a → o ≡ some a
found-ok e none a h = cc
found-ok e (some b) a h = cc

ok-eq : {E A : Type 0} {a b : A} → ◌≡◌ {A = Result E A} (ok a) (ok b) → b ≡ a
ok-eq h = cc

get-same : (k t : Text) (files : Assoc Text) → get k (put k t files) ≡ some t
get-same k t files = get-put k k t files ∙ rw (eq_text_refl k) refl

get-other :
    (k other t : Text) (files : Assoc Text)
    → eq_text k other ≡ false
    → get other (put k t files) ≡ get other files
get-other k other t files e = get-put k other t files ∙ rw e refl

-- The text that an edit writes: the old one with the block of the item's section and name replaced
-- by the definition, inside the communication of a configuration, at the top level of an interface.
pub record IsEdit (input : CommunicationItemInput) (t next : Text) : Type 0 where
  pub in_config :
      input.source ≡ config
      → replace_yaml_route_block t (section_of_kind input.kind) input.name input.definition
        ≡ ok next
  pub in_interface :
      input.source ≡ idl
      → replace_top_level_yaml_block t (section_of_kind input.kind) input.name input.definition
        ≡ ok next

edited_text-IsEdit :
    (input : CommunicationItemInput) (source : CommunicationSource) (t next : Text)
    → input.source ≡ source
    → edited_text input source t ≡ ok next
    → IsEdit input t next
edited_text-IsEdit input config t next e h = record {
  in_config = λ k. h;
  in_interface = λ k. cc (e, k);
}
edited_text-IsEdit input idl t next e h = record {
  in_config = λ k. cc (e, k);
  in_interface = λ k. h;
}

-- An edit that succeeds has written one file: the one that the item's path, which begins with an
-- allowed root, names inside the repository. The file was there and now has its old text with the
-- item's block replaced; every other file is as it was, and no snapshot is kept.
pub write_communication_item-IsInside :
    {S : Type 0} (repo_root : List Text) (input : CommunicationItemInput)
    (state state' : DashboardState S)
    → write_communication_item repo_root input state ≡ ok state'
    → (p : List Text) × IsInside repo_root p
      × (absolute_repo_path repo_root input.path (module_service_root ∷ idl_root ∷ []) ≡ ok p)
      × (is_under (module_service_root ∷ idl_root ∷ []) input.path ≡ true)
      × ((t : Text) × (next : Text) × (get (path_text p) state.files ≡ some t)
          × IsEdit input t next
          × (get (path_text p) state'.files ≡ some next))
      × ((other : Text)
          → eq_text (path_text p) other ≡ false
          → get other state'.files ≡ get other state.files)
      × (state'.cached_snapshot ≡ none)
unfolding write_communication_item
write_communication_item-IsInside repo_root input state state' h =
    let (p, path_ok, h1) =
      bind-ok
        (lift path_failure
          (absolute_repo_path repo_root input.path (module_service_root ∷ idl_root ∷ [])))
        _ h in
    let inside =
      absolute_repo_path-IsInside repo_root input.path (module_service_root ∷ idl_root ∷ []) p
        (lift-ok path_failure _ p path_ok) in
    let (t, read_ok, h2) = bind-ok (read_file (path_text p) state.files) _ h1 in
    let (next, edit_ok, h3) = bind-ok (lift edit_failure (edited_text input input.source t)) _ h2 in
    let same = ok-eq h3 in
    (
      p,
      inside.4,
      lift-ok path_failure _ p path_ok,
      inside.2,
      (
        t,
        next,
        found-ok (no_such_file (path_text p)) _ t read_ok,
        edited_text-IsEdit input input.source t next refl (lift-ok edit_failure _ next edit_ok),
        ap (λ (s : DashboardState _). get (path_text p) s.files) same
            ∙ get-same (path_text p) next state.files,
      ),
      λ other e.
          ap (λ (s : DashboardState _). get other s.files) same
          ∙ get-other (path_text p) other next state.files e,
      ap (λ (s : DashboardState _). s.cached_snapshot) same,
    )
