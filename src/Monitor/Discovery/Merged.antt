-- ===== src/Monitor/Discovery/Merged.antt =====
-- What merging the drafts makes (monitor/pr-monitor/src/discovery.ts).
use mathlib.Core.List.{Perm}
use robotics_pacific_rim.Base.{
  ◌≡◌, refl, subst, inl, inr, Bool, Option, none, some, List, [], ◌∷◌, Bool-cases, Option-cases,
  All, Text, eq_text, eq_text_iff,
}
use robotics_pacific_rim.Base.Assoc.{Assoc, get, keys, values, HasDistinct, put-HasDistinct}
use robotics_pacific_rim.Base.Sort.{sort-perm}
use robotics_pacific_rim.Monitor.Types.{EndpointInfo}
use robotics_pacific_rim.Monitor.Discovery.Draft.{EndpointDraft, endpoint_from_draft}
use robotics_pacific_rim.Monitor.Discovery.Merge.{
  absorb, merge_draft, merge_drafts, by_scheme, kept_drafts, endpoints_of,
}
use robotics_pacific_rim.Monitor.Discovery.Absorb.{
  drafts_of, IsUnion, absorb_each, absorb_all, get-merge_drafts, absorb_each-some,
  absorb_all-IsUnion,
}

drafts_of-All : (url : Text) (ds : List EndpointDraft) → All (λ d. d.url ≡ url) (drafts_of url ds)
drafts_of-All url [] = tt
drafts_of-All url (d ∷ ds) = elim (Bool-cases (eq_text d.url url)) [
  | inl h ↦ rw h ((eq_text_iff d.url url).0 h, drafts_of-All url ds)
  | inr h ↦ rw h (drafts_of-All url ds)
]

module _ {R : Type 0} where
  merge_draft-HasDistinct :
      (table : Assoc (EndpointInfo R)) (d : EndpointDraft)
      → HasDistinct (keys table)
      → HasDistinct (keys (merge_draft table d))
  unfolding merge_draft
  merge_draft-HasDistinct table d h = elim (Option-cases (get d.url table)) [
    | inl e ↦ rw (e, merge_draft) (put-HasDistinct d.url (endpoint_from_draft d) table h)
    | inr (x, e) ↦ rw (e, merge_draft) (put-HasDistinct d.url (absorb x d) table h)
  ]

  merge_drafts-HasDistinct :
      (table : Assoc (EndpointInfo R)) (ds : List EndpointDraft)
      → HasDistinct (keys table)
      → HasDistinct (keys (merge_drafts table ds))
  unfolding merge_drafts
  merge_drafts-HasDistinct table [] h = h
  merge_drafts-HasDistinct table (d ∷ ds) h =
      merge_drafts-HasDistinct (merge_draft table d) ds (merge_draft-HasDistinct table d h)

  -- What a table of merged drafts holds for a URL.
  abbrev pub MergedAt : Text → List EndpointDraft → Option (EndpointInfo R) → Type 0
  MergedAt url [] o = o ≡ none
  MergedAt url (d ∷ ds) o = (e : EndpointInfo R) × (o ≡ some e) × IsUnion url d ds e

  -- The endpoints are those of a table with one entry for each URL of the drafts: the union of the
  -- drafts of that URL.
  pub record IsMerged (kept : List EndpointDraft) (endpoints : List (EndpointInfo R)) : Type 0 where
    pub table : Assoc (EndpointInfo R)
    pub distinct : HasDistinct (keys table)
    pub merged : (url : Text) → MergedAt url (drafts_of url kept) (get url table)
    pub same : Perm endpoints (values table)

MergedAt-absorb_each :
    (R : Type 0) (url : Text) (ds : List EndpointDraft)
    → All (λ d. d.url ≡ url) ds
    → MergedAt {R = R} url ds (absorb_each {R = R} none ds)
unfolding absorb_each
MergedAt-absorb_each R url [] h = refl
MergedAt-absorb_each R url (d ∷ ds) (u, h) = (
  absorb_all (endpoint_from_draft d) ds,
  absorb_each-some (endpoint_from_draft d) ds,
  subst (λ v. IsUnion {R = R} v d ds (absorb_all (endpoint_from_draft d) ds)) u
      (absorb_all-IsUnion d ds),
)

module _ {R : Type 0} where
  -- The discovered endpoints are, in some order, one endpoint for each URL of the drafts that are
  -- not hidden: with the bits of all drafts of that URL, exactly their sources and route names,
  -- each once, and no processes.
  pub endpoints_of-IsMerged :
      (locale_le : Text → Text → Bool) (drafts : List EndpointDraft)
      → IsMerged {R = R} (kept_drafts drafts) (endpoints_of locale_le drafts)
  unfolding endpoints_of get
  endpoints_of-IsMerged locale_le drafts =
      let kept = kept_drafts drafts in
      record {
        table = merge_drafts [] kept;
        distinct = merge_drafts-HasDistinct [] kept tt;
        merged = λ url.
            rw (get-merge_drafts url [] kept)
              (MergedAt-absorb_each R url (drafts_of url kept) (drafts_of-All url kept));
        same = sort-perm (by_scheme locale_le) _;
      }
