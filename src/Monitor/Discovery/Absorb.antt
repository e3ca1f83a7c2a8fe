-- ===== src/Monitor/Discovery/Absorb.antt =====
-- What the drafts of one URL make (monitor/pr-monitor/src/discovery.ts).
use Prim.Native.Nat.{bit_or}
use robotics_pacific_rim.Base.{
  ℕ, ◌≡◌, refl, sym, ◌∙◌, subst, inl, inr, true, false, ◌||◌, Option, none, some, List, [], ◌∷◌,
  ◌++◌, map, arith, Bool-cases, Option-cases, select, Text, eq_text, eq_text_iff, eq_text_refl,
  has_text,
}
use robotics_pacific_rim.Base.Assoc.{Assoc, get, HasDistinct, get-put}
use robotics_pacific_rim.Monitor.Types.{EndpointInfo}
use robotics_pacific_rim.Monitor.Discovery.Draft.{EndpointDraft, endpoint_from_draft}
use robotics_pacific_rim.Monitor.Discovery.Merge.{add_text, absorb, merge_draft, merge_drafts}

-- The drafts of a URL, in order.
abbrev pub drafts_of : Text → List EndpointDraft → List EndpointDraft
drafts_of url ds = select (λ d. eq_text d.url url) ds

-- The union of the drafts' bits with a set of bits.
abbrev pub bits_of : ℕ → List EndpointDraft → ℕ
bits_of bits [] = bits
bits_of bits (d ∷ ds) = bits_of (bit_or bits d.type) ds

-- The endpoint is the union of the drafts, of which there is one at least: it has the bits of each,
-- exactly their sources and route names, without repetition, and no processes yet.
pub record IsUnion {R : Type 0} (url : Text) (d : EndpointDraft) (ds : List EndpointDraft)
    (e : EndpointInfo R) : Type 0 where
  pub url_kept : e.url ≡ url
  pub type : e.type ≡ bits_of d.type ds
  pub sources : (t : Text) → has_text t e.sources ≡ has_text t (map (λ x. x.source) (d ∷ ds))
  pub route_names :
      (t : Text) → has_text t e.route_names ≡ has_text t (map (λ x. x.route_name) (d ∷ ds))
  pub distinct_sources : HasDistinct e.sources
  pub distinct_names : HasDistinct e.route_names
  pub no_processes : e.process_list ≡ []

has-snoc :
    (s t : Text) (ts : List Text) → has_text s (ts ++ t ∷ []) ≡ (has_text s ts || eq_text s t)
unfolding has_text
has-snoc s t [] = ground arith
has-snoc s t (u ∷ ts) = ground (arith, has-snoc s t ts)

has_text-eq :
    (s t : Text) (ts : List Text) → eq_text s t ≡ true → has_text t ts ≡ true → has_text s ts ≡ true
has_text-eq s t ts e h = subst (λ u. has_text u ts ≡ true) (sym ((eq_text_iff s t).0 e)) h

has-add_text :
    (s t : Text) (ts : List Text) → has_text s (add_text t ts) ≡ (has_text s ts || eq_text s t)
unfolding add_text
has-add_text s t ts = ground (arith, has-snoc s t ts, has_text-eq s t ts)

snoc-HasDistinct :
    (t : Text) (ts : List Text)
    → has_text t ts ≡ false
    → HasDistinct ts
    → HasDistinct (ts ++ t ∷ [])
unfolding has_text
snoc-HasDistinct t [] h d = (refl, tt)
snoc-HasDistinct t (u ∷ ts) h (new, d) = (
  ground (arith, has-snoc u t ts, eq_text_iff t u, eq_text_iff u t),
  snoc-HasDistinct t ts (ground arith) d,
)

add_text-HasDistinct : (t : Text) (ts : List Text) → HasDistinct ts → HasDistinct (add_text t ts)
unfolding add_text
add_text-HasDistinct t ts d = elim (Bool-cases (has_text t ts)) [
  | inl h ↦ rw h d
  | inr h ↦ rw h (snoc-HasDistinct t ts h d)
]

-- One draft after another, for a single URL.
unfoldable pub absorb_each :
    {R : Type 0} → Option (EndpointInfo R) → List EndpointDraft → Option (EndpointInfo R)
absorb_each o [] = o
absorb_each none (d ∷ ds) = absorb_each (some (endpoint_from_draft d)) ds
absorb_each (some e) (d ∷ ds) = absorb_each (some (absorb e d)) ds

module _ {R : Type 0} where
  get-merge_draft_hit :
      (table : Assoc (EndpointInfo R)) (d : EndpointDraft)
      → get d.url (merge_draft table d) ≡ absorb_each (get d.url table) (d ∷ [])
  unfolding merge_draft absorb_each
  get-merge_draft_hit table d = elim (Option-cases (get d.url table)) [
    | inl e ↦
        rw (e, merge_draft, get-put d.url d.url (endpoint_from_draft d) table, eq_text_refl d.url)
          refl
    | inr (x, e) ↦
        rw (e, merge_draft, get-put d.url d.url (absorb x d) table, eq_text_refl d.url) refl
  ]

  get-merge_draft_same :
      (url : Text) (table : Assoc (EndpointInfo R)) (d : EndpointDraft)
      → eq_text d.url url ≡ true
      → get url (merge_draft table d) ≡ absorb_each (get url table) (d ∷ [])
  get-merge_draft_same url table d h =
      subst (λ u. get u (merge_draft table d) ≡ absorb_each (get u table) (d ∷ []))
        ((eq_text_iff d.url url).0 h) (get-merge_draft_hit table d)

  get-merge_draft_miss :
      (url : Text) (table : Assoc (EndpointInfo R)) (d : EndpointDraft)
      → eq_text d.url url ≡ false
      → get url (merge_draft table d) ≡ get url table
  unfolding merge_draft
  get-merge_draft_miss url table d h = elim (Option-cases (get d.url table)) [
    | inl e ↦ rw (e, merge_draft, get-put d.url url (endpoint_from_draft d) table, h) refl
    | inr (x, e) ↦ rw (e, merge_draft, get-put d.url url (absorb x d) table, h) refl
  ]

  absorb_each-cons :
      (o : Option (EndpointInfo R)) (d : EndpointDraft) (ds : List EndpointDraft)
      → absorb_each (absorb_each o (d ∷ [])) ds ≡ absorb_each o (d ∷ ds)
  unfolding absorb_each
  absorb_each-cons none d ds = refl
  absorb_each-cons (some e) d ds = refl

  -- Merging is absorbing, URL by URL.
  pub get-merge_drafts :
      (url : Text) (table : Assoc (EndpointInfo R)) (ds : List EndpointDraft)
      → get url (merge_drafts table ds) ≡ absorb_each (get url table) (drafts_of url ds)
  unfolding merge_drafts absorb_each
  get-merge_drafts url table [] = refl
  get-merge_drafts url table (d ∷ ds) =
      get-merge_drafts url (merge_draft table d) ds ∙ elim (Bool-cases (eq_text d.url url)) [
        | inr h ↦ rw (h, get-merge_draft_miss url table d h) refl
        | inl h ↦
            rw (h, get-merge_draft_same url table d h)
              (absorb_each-cons (get url table) d (drafts_of url ds))
      ]

abbrev pub absorb_all : {R : Type 0} → EndpointInfo R → List EndpointDraft → EndpointInfo R
absorb_all e [] = e
absorb_all e (d ∷ ds) = absorb_all (absorb e d) ds

module _ {R : Type 0} where
  pub absorb_each-some :
      (e : EndpointInfo R) (ds : List EndpointDraft)
      → absorb_each (some e) ds ≡ some (absorb_all e ds)
  unfolding absorb_each
  absorb_each-some e [] = refl
  absorb_each-some e (d ∷ ds) = absorb_each-some (absorb e d) ds

  absorb_all-fields :
      (e : EndpointInfo R) (ds : List EndpointDraft)
      → ((absorb_all e ds).url ≡ e.url)
        × ((absorb_all e ds).type ≡ bits_of e.type ds)
        × ((absorb_all e ds).process_list ≡ e.process_list)
  unfolding absorb
  absorb_all-fields e [] = (refl, refl, refl)
  absorb_all-fields e (d ∷ ds) = absorb_all-fields (absorb e d) ds

  has-absorb_all :
      (t : Text) (e : EndpointInfo R) (ds : List EndpointDraft)
      → (has_text t (absorb_all e ds).sources
          ≡ (has_text t e.sources || has_text t (map (λ x. x.source) ds)))
        × (has_text t (absorb_all e ds).route_names
            ≡ (has_text t e.route_names || has_text t (map (λ x. x.route_name) ds)))
  unfolding absorb has_text
  has-absorb_all t e [] = ground arith
  has-absorb_all t e (d ∷ ds) = ground (
    arith,
    has-absorb_all t (absorb e d) ds,
    has-add_text t d.source e.sources,
    has-add_text t d.route_name e.route_names,
  )

  absorb_all-HasDistinct :
      (e : EndpointInfo R) (ds : List EndpointDraft)
      → HasDistinct e.sources
      → HasDistinct e.route_names
      → HasDistinct (absorb_all e ds).sources × HasDistinct (absorb_all e ds).route_names
  unfolding absorb
  absorb_all-HasDistinct e [] s n = (s, n)
  absorb_all-HasDistinct e (d ∷ ds) s n =
      absorb_all-HasDistinct (absorb e d) ds (add_text-HasDistinct d.source e.sources s)
        (add_text-HasDistinct d.route_name e.route_names n)

  pub absorb_all-IsUnion :
      (d : EndpointDraft) (ds : List EndpointDraft)
      → IsUnion d.url d ds (absorb_all (endpoint_from_draft {R = R} d) ds)
  unfolding endpoint_from_draft has_text
  absorb_all-IsUnion d ds =
      let first = endpoint_from_draft {R = R} d in
      let (url, type, processes) = absorb_all-fields first ds in
      let (sources, names) = absorb_all-HasDistinct first ds (refl, tt) (refl, tt) in
      record {
        url_kept = url;
        type = type;
        sources = λ t. ground (arith, has-absorb_all t first ds);
        route_names = λ t. ground (arith, has-absorb_all t first ds);
        distinct_sources = sources;
        distinct_names = names;
        no_processes = processes;
      }
