-- ===== src/Monitor/Yaml/Parsed.antt =====
-- Parsing keeps the stack of open containers in shape (monitor/pr-monitor/src/yaml.ts).
use robotics_pacific_rim.Base.{
  ℕ, ◌≡◌, refl, subst, inl, inr, false, List, [], ◌∷◌, if◌then◌else◌, Bool-cases, drop, Text, text,
  is_empty, trim, starts_with,
}
use robotics_pacific_rim.Base.Result.{Result, ok, bind-ok}
use robotics_pacific_rim.Monitor.Yaml.Value.{
  YamlValue, YamlArray, string, number, boolean, null, object, array, no_entry, no_item,
}
use robotics_pacific_rim.Monitor.Yaml.Parse.{
  Container, mapping, sequence, at_key, at_end, Frame, closes, pop_all, parse_list_item, opened,
  set_field, push_item, value_of, add_item, assign, open_child, parse_line, parse_lines, content_of,
  indent_of, next_child_is_list, parse_key_value, parse_scalar,
}
use robotics_pacific_rim.Monitor.Yaml.Stack.{
  is_mapping, IsStack, IsInside, replace_top, pop_all-IsStack, inside-deeper,
}

-- A new container over a top that is changed in value alone.
opened-IsStack :
    (indent : ℕ) (child : Container) (f f' : Frame) (fs : List Frame)
    → f'.indent ≡ f.indent
    → is_mapping f'.value ≡ is_mapping f.value
    → closes indent f ≡ false
    → IsStack (f ∷ fs)
    → IsStack (opened indent child ∷ f' ∷ fs)
opened-IsStack indent child f f' fs i m inside s =
    (rw i (inside-deeper indent f inside), replace_top f f' fs i m s)

module _ (float_text : Text → Text) where
  add_item-IsStack :
      (indent : ℕ) (v : YamlValue) (stack stack' : List Frame)
      → IsStack stack
      → IsInside indent stack
      → add_item float_text indent v stack ≡ ok stack'
      → IsStack stack'
  unfolding add_item
  add_item-IsStack indent v [] stack' s inside h = absurd s
  add_item-IsStack indent v (f ∷ fs) stack' s inside h = go f.value v refl h
    where
      top : Container → Frame
      top c = record f { value = c }

      scalar :
          (a b : YamlArray)
          → f.value ≡ sequence a
          → ◌≡◌ {A = Result Text (List Frame)} (ok (top (sequence b) ∷ fs)) (ok stack')
          → IsStack stack'
      scalar a b e g =
          let same : top (sequence b) ∷ fs ≡ stack' = cc g in
          subst IsStack same (replace_top f (top (sequence b)) fs refl (rw e refl) s)

      container :
          (c : Container)
          → ◌≡◌ {A = Result Text (List Frame)}
              (ok (opened indent c ∷ record f { slot = at_end } ∷ fs))
              (ok stack')
          → IsStack stack'
      container c g =
          let same : opened indent c ∷ record f { slot = at_end } ∷ fs ≡ stack' = cc g in
          subst IsStack same
            (opened-IsStack indent c f (record f { slot = at_end }) fs refl refl inside s)

      go :
          (c : Container) (v : YamlValue)
          → f.value ≡ c
          → add_item float_text indent v (f ∷ fs) ≡ ok stack'
          → IsStack stack'
      go (mapping o) v e g = cc (rw e at g)
      go (sequence a) (object o) e g = container (mapping o) (rw e at g)
      go (sequence a) (array b) e g = container (sequence b) (rw e at g)
      go (sequence a) (string t) e g = scalar a (push_item (string t) a) e (rw e at g)
      go (sequence a) (number t) e g = scalar a (push_item (number t) a) e (rw e at g)
      go (sequence a) (boolean b) e g = scalar a (push_item (boolean b) a) e (rw e at g)
      go (sequence a) null e g = scalar a (push_item null a) e (rw e at g)

  assign-IsStack :
      (key : Text) (v : YamlValue) (stack stack' : List Frame)
      → IsStack stack
      → assign float_text key v stack ≡ ok stack'
      → IsStack stack'
  unfolding assign
  assign-IsStack key v [] stack' s h = absurd s
  assign-IsStack key v (f ∷ fs) stack' s h = go f.value refl h
    where
      go :
          (c : Container)
          → f.value ≡ c
          → assign float_text key v (f ∷ fs) ≡ ok stack'
          → IsStack stack'
      go (sequence a) e g = cc (rw e at g)
      go (mapping o) e g =
          let f' = record f { value = mapping (set_field key v o) } in
          let same : f' ∷ fs ≡ stack' = cc (rw e at g) in
          subst IsStack same (replace_top f f' fs refl (rw e refl) s)

  open_child-IsStack :
      (indent : ℕ) (key : Text) (child : Container) (stack stack' : List Frame)
      → IsStack stack
      → IsInside indent stack
      → open_child float_text indent key child stack ≡ ok stack'
      → IsStack stack'
  unfolding open_child
  open_child-IsStack indent key child [] stack' s inside h = absurd s
  open_child-IsStack indent key child (f ∷ fs) stack' s inside h = go f.value refl h
    where
      go :
          (c : Container)
          → f.value ≡ c
          → open_child float_text indent key child (f ∷ fs) ≡ ok stack'
          → IsStack stack'
      go (sequence a) e g = cc (rw e at g)
      go (mapping o) e g =
          let f' = record f {
            value = mapping (set_field key (value_of child) o);
            slot = at_key key;
          } in
          let same : opened indent child ∷ f' ∷ fs ≡ stack' = cc (rw e at g) in
          subst IsStack same (opened-IsStack indent child f f' fs refl (rw e refl) inside s)

  parse_line-IsStack :
      (raw : Text) (lines : List Text) (stack stack' : List Frame)
      → IsStack stack
      → parse_line float_text raw lines stack ≡ ok stack'
      → IsStack stack'
  unfolding parse_line
  parse_line-IsStack raw lines stack stack' s h =
      let stripped = trim (content_of raw) in
      let indent = indent_of raw in
      let frames = pop_all indent stack in
      let child = if next_child_is_list lines indent then sequence no_item else mapping no_entry in
      let (open_stack, inside) = pop_all-IsStack indent stack s in
      elim (Bool-cases (starts_with (text "- ") stripped)) [
        | inl e ↦
            let (v, _, g) =
              bind-ok (parse_list_item float_text (trim (drop 2 stripped)))
                (λ v. add_item float_text indent v frames) (rw e at h) in
            add_item-IsStack indent v frames stack' open_stack inside g
        | inr e ↦
            let (pair, _, g) =
              bind-ok (parse_key_value stripped)
                (λ pair.
                  if is_empty pair.1
                  then open_child float_text indent pair.0 child frames
                  else assign float_text pair.0 (parse_scalar float_text pair.1) frames)
                (rw e at h) in
            elim (Bool-cases (is_empty pair.1)) [
              | inl t ↦
                  open_child-IsStack indent pair.0 child frames stack' open_stack inside (rw t at g)
              | inr t ↦
                  assign-IsStack pair.0 (parse_scalar float_text pair.1) frames stack' open_stack
                    (rw t at g)
            ]
      ]

  -- While a text is parsed, the root mapping stays at the bottom of the stack, so that there is
  -- always a container to assign to, and each open container is deeper than the one that it is in.
  pub parse_lines-IsStack :
      (lines : List Text) (stack stack' : List Frame)
      → IsStack stack
      → parse_lines float_text lines stack ≡ ok stack'
      → IsStack stack'
  unfolding parse_lines
  parse_lines-IsStack [] stack stack' s h = let same : stack ≡ stack' = cc h in subst IsStack same s
  parse_lines-IsStack (raw ∷ lines) stack stack' s h =
      elim (Bool-cases (is_empty (trim (content_of raw)))) [
        | inl e ↦ parse_lines-IsStack lines stack stack' s (rw e at h)
        | inr e ↦
            let (next, line, g) =
              bind-ok (parse_line float_text raw lines stack) (parse_lines float_text lines)
                (rw e at h) in
            parse_lines-IsStack lines next stack' (parse_line-IsStack raw lines stack next s line) g
      ]
