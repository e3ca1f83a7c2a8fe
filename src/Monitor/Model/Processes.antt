-- ===== src/Monitor/Model/Processes.antt =====
-- Merging the processes of an endpoint (monitor/pr-monitor/src/model.ts).
use robotics_pacific_rim.Base.{
  ◌≡◌, refl, sym, ◌∙◌, inl, inr, Option, none, some, List, [], ◌∷◌, ◌++◌, arith, if◌then◌else◌,
  Bool-cases, All, Text, eq_text, eq_text_iff,
}
use robotics_pacific_rim.Base.Assoc.{Assoc, get, put, keys, values, HasDistinct}
use robotics_pacific_rim.Monitor.Types.{ProcessInfo, Host}
use mathlib.Core.List.{Perm}
use robotics_pacific_rim.Base.Assoc.{get-put, put-HasDistinct}
use robotics_pacific_rim.Base.Sort.{IsSorted, IsOrder, sort-IsSorted, sort-perm}
use robotics_pacific_rim.Monitor.Model.Sampling.{
  or_option, process_key, merge_into, by_process, merge_processes,
}

module _ (host : Host) where
  open host use {Real, locale_le}

  -- The specification: the last process of the list that has the key.
  unfoldable pub last_of : Text → List (ProcessInfo Real) → Option (ProcessInfo Real)
  last_of k [] = none
  last_of k (p ∷ ps) =
      or_option (last_of k ps) (if eq_text (process_key host p) k then some p else none)

  get-merge_into :
      (k : Text) (m : Assoc (ProcessInfo Real)) (ps : List (ProcessInfo Real))
      → get k (merge_into host m ps) ≡ or_option (last_of k ps) (get k m)
  unfolding merge_into last_of
  get-merge_into k m [] = refl
  get-merge_into k m (p ∷ ps) =
      get-merge_into k (put (process_key host p) p m) ps
      ∙ rw (get-put (process_key host p) k p m) (ground arith)

  -- Every entry stands under the key of its process.
  abbrev pub IsKeyed : Assoc (ProcessInfo Real) → Type 0
  IsKeyed m = All (λ e. process_key host e.1 ≡ e.0) m

  put-IsKeyed :
      (p : ProcessInfo Real) (m : Assoc (ProcessInfo Real))
      → IsKeyed m
      → IsKeyed (put (process_key host p) p m)
  unfolding put
  put-IsKeyed p [] h = (refl, tt)
  put-IsKeyed p ((j, q) ∷ m) (k, h) = elim (Bool-cases (eq_text j (process_key host p))) [
    | inl e ↦ rw e (sym ((eq_text_iff _ _).0 e), h)
    | inr e ↦ rw e (k, put-IsKeyed p m h)
  ]

  merge_into-IsKeyed :
      (m : Assoc (ProcessInfo Real)) (ps : List (ProcessInfo Real))
      → IsKeyed m
      → IsKeyed (merge_into host m ps)
  unfolding merge_into
  merge_into-IsKeyed m [] h = h
  merge_into-IsKeyed m (p ∷ ps) h =
      merge_into-IsKeyed (put (process_key host p) p m) ps (put-IsKeyed p m h)

  merge_into-HasDistinct :
      (m : Assoc (ProcessInfo Real)) (ps : List (ProcessInfo Real))
      → HasDistinct (keys m)
      → HasDistinct (keys (merge_into host m ps))
  unfolding merge_into
  merge_into-HasDistinct m [] h = h
  merge_into-HasDistinct m (p ∷ ps) h =
      merge_into-HasDistinct (put (process_key host p) p m) ps
        (put-HasDistinct (process_key host p) p m h)

  by_process-IsOrder : IsOrder locale_le → IsOrder (by_process host)
  unfolding by_process
  by_process-IsOrder order = record {
    total = λ x y h. ground (arith, order.total x.name y.name, order.total y.name x.name);
    trans = λ x y z h k. ground (
      arith,
      order.trans x.name y.name z.name,
      order.trans z.name x.name y.name,
      order.trans y.name z.name x.name,
    );
  }

  pub record IsMerge (ps result : List (ProcessInfo Real)) : Type 0 where
    pub table : Assoc (ProcessInfo Real)
    pub keyed : IsKeyed table
    pub distinct : HasDistinct (keys table)
    pub latest : (k : Text) → get k table ≡ last_of k ps
    pub same : Perm result (values table)
    pub sorted : IsSorted (by_process host) result

  -- Merging keeps, for each key `name:pid:type` of the old and the new processes, the last of them
  -- with that key and no other, and sorts by name, then by pid. (The locale's order on names must
  -- be total and transitive.)
  pub merge_processes-IsMerge :
      (current incoming : List (ProcessInfo Real))
      → IsOrder locale_le
      → IsMerge (current ++ incoming) (merge_processes host current incoming)
  unfolding merge_processes get
  merge_processes-IsMerge current incoming order =
      let ps = current ++ incoming in
      record {
        table = merge_into host [] ps;
        keyed = merge_into-IsKeyed [] ps tt;
        distinct = merge_into-HasDistinct [] ps tt;
        latest = λ k. get-merge_into k [] ps ∙ or_none (last_of k ps);
        same = sort-perm (by_process host) _;
        sorted = sort-IsSorted (by_process-IsOrder order) _;
      }
    where
      or_none : (o : Option (ProcessInfo Real)) → or_option o none ≡ o
      or_none none = refl
      or_none (some p) = refl
