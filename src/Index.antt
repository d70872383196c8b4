-- ===== src/Index.antt =====
-- internal/adapters/memory/index.go: the in-memory search index.
pub mod Filters
pub mod Search
use gontext.Base.{ℕ}
use gontext.Base.{String, string_eq, ◌==◌, concat, contains_text, contains}
use gontext.Base.{Bool, true, not, ◌&&◌, ◌||◌, Option, none, some, List, [], ◌∷◌, map}
use gontext.Base.{leb, if◌then◌else◌, take, select, any}
use gontext.Base.{number_eq, lower, trim_space, split_comma, equal_fold}
use gontext.Base.Dict.{Dict, get, put, log_of}
use gontext.Ports.{IndexDocument, SearchHit}
use gontext.Ledger.{or_limit}

-- Index: org -> docs
abbrev pub Index : Type 0
Index = Dict (List IndexDocument)

-- m[k], "" where there is none
unfoldable pub text_of : Dict String → String → String
text_of m k = elim (get m k) [ none ↦ "" | some v ↦ v ]

-- The inner loop of Upsert: the first document of the resource is replaced.
unfoldable pub upsert_doc : IndexDocument → List IndexDocument → List IndexDocument
upsert_doc d [] = d ∷ []
upsert_doc d (x ∷ xs) = if x.resource_id == d.resource_id then d ∷ xs else x ∷ upsert_doc d xs

unfoldable pub upsert : List IndexDocument → Index → Index
upsert [] idx = idx
upsert (d ∷ ds) idx = upsert ds (put idx d.org_id (upsert_doc d (log_of idx d.org_id)))

unfoldable pub delete : String → List String → Index → Index
delete org_id resource_ids idx =
    put idx org_id (select (λ d. not (contains resource_ids d.resource_id)) (log_of idx org_id))

unfoldable pub class_rank : String → ℕ
class_rank c =
    let l = lower c in
    if l == "public"
    then 1
    else if l == "internal"
    then 2
    else if l == "confidential"
    then 3
    else if l == "restricted"
    then 4
    else 2

unfoldable pub doc_class : IndexDocument → String
doc_class d = let c = text_of d.attributes "classification" in if c == "" then "internal" else c

-- the test of the purpose, where the filter names one
unfoldable pub has_purpose : IndexDocument → String → Bool
has_purpose d purpose =
    any (λ l. l == concat "purpose:" purpose || equal_fold l purpose) d.labels
    || any (λ p. trim_space p == purpose)
        (let allow = text_of d.attributes "purpose_allowlist" in
          if allow == "" then [] else split_comma allow)

-- the test of the tags: each one that is not blank must be a label
unfoldable pub has_tags : IndexDocument → List String → Bool
has_tags d [] = true
has_tags d (t ∷ ts) = (trim_space t == "" || contains d.labels (trim_space t)) && has_tags d ts

-- matchFilters: an absent filter is ""
unfoldable pub match_filters : IndexDocument → Dict String → Bool
match_filters d filters =
    let purpose = text_of filters "purpose" in
    let ceiling = text_of filters "classification_ceiling" in
    let tags = text_of filters "include_tags" in
    let cs = text_of filters "context_space_id" in
    let rid = text_of filters "resource_id" in
    (purpose == "" || has_purpose d purpose)
    && (ceiling == "" || leb (class_rank (doc_class d)) (class_rank ceiling))
    && (tags == "" || has_tags d (split_comma tags))
    && (cs == "" || text_of d.attributes "context_space_id" == cs)
    && (rid == "" || d.resource_id == rid)

-- whether the query meets the document
unfoldable pub is_relevant : String → Dict String → IndexDocument → Bool
is_relevant query filters d =
    let q = lower (trim_space query) in
    let rid = text_of filters "resource_id" in
    q == ""
    || not (rid == "") && d.resource_id == rid
    || equal_fold d.resource_id q
    || contains_text (lower d.text) q

unfoldable pub hit_of : IndexDocument → SearchHit
hit_of d = record { resource_id = d.resource_id; revision_id = d.revision_id }

unfoldable pub is_hit : String → Dict String → IndexDocument → Bool
is_hit query filters d = match_filters d filters && is_relevant query filters d

-- SearchCandidates
unfoldable pub search_candidates : String → String → ℕ → Dict String → Index → List SearchHit
unfolding or_limit
search_candidates org_id query limit filters idx =
    map hit_of (take (or_limit limit 12) (select (is_hit query filters) (log_of idx org_id)))

unfoldable pub find_document : String → List IndexDocument → Option IndexDocument
find_document resource_id [] = none
find_document resource_id (d ∷ ds) =
    if d.resource_id == resource_id then some d else find_document resource_id ds

-- GetDocument
unfoldable pub get_document : String → String → Index → Option IndexDocument
get_document org_id resource_id idx = find_document resource_id (log_of idx org_id)
