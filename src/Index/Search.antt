-- ===== src/Index/Search.antt =====
-- What a search returns, and what updates of the index do to it.
use gontext.Base.{ℕ, zero, suc, min}
use gontext.Base.{String, string_eq, ◌==◌, eq_iff, contains}
use gontext.Base.{◌≡◌, refl, ap, ◌∙◌, ◌≢◌, inl, inr}
use gontext.Base.{Bool, true, false, not, ◌&&◌, some, List, [], ◌∷◌, map}
use gontext.Base.{arith, if◌then◌else◌, Bool-cases, length, take, select, any, All}
use gontext.Base.Dict.{Dict, put, log_of, log_of-put}
use gontext.Base.Sort.{tally, All-take}
use gontext.Ports.{IndexDocument, SearchHit}
use gontext.Ledger.{or_limit}
use gontext.Index.{
  Index, upsert_doc, upsert, delete, match_filters, hit_of, is_hit, search_candidates,
  find_document, get_document,
}

unfoldable pub comes_from : Dict String → SearchHit → IndexDocument → Bool
comes_from filters h d =
    d.resource_id == h.resource_id && d.revision_id == h.revision_id && match_filters d filters

any-more :
    (test : SearchHit → IndexDocument → Bool) (d : IndexDocument) (ds : List IndexDocument)
    → (hs : List SearchHit) → All (λ h. any (test h) ds ≡ true) hs
    → All (λ h. any (test h) (d ∷ ds) ≡ true) hs
any-more test d ds [] a = tt
any-more test d ds (h ∷ hs) (p, a) = (ground arith, any-more test d ds hs a)

hit-comes_from :
    (query : String) (filters : Dict String) (d : IndexDocument)
    → is_hit query filters d ≡ true
    → comes_from filters (hit_of d) d ≡ true
unfolding is_hit comes_from hit_of
hit-comes_from query filters d h =
    ground (arith, eq_iff d.resource_id d.resource_id, eq_iff d.revision_id d.revision_id)

hits-come_from :
    (query : String) (filters : Dict String) (ds : List IndexDocument)
    → All
        (λ h. any (comes_from filters h) ds ≡ true)
        (map hit_of (select (is_hit query filters) ds))
hits-come_from query filters [] = tt
hits-come_from query filters (d ∷ ds) =
    let rest =
      any-more (comes_from filters) d ds (map hit_of (select (is_hit query filters) ds))
        (hits-come_from query filters ds) in
    elim (Bool-cases (is_hit query filters d)) [
      | inl y ↦ rw (y) (ground (arith, hit-comes_from query filters d y), rest)
      | inr n ↦ rw (n) rest
    ]

map-take : (n : ℕ) (ds : List IndexDocument) → map hit_of (take n ds) ≡ take n (map hit_of ds)
map-take zero ds = refl
map-take (suc n) [] = refl
map-take (suc n) (d ∷ ds) = ap (λ hs. hit_of d ∷ hs) (map-take n ds)

-- Every hit of a search is the resource and the revision of a document that the index holds for
-- the organization searched, and that passes all the filters.
pub search-comes_from :
    (org_id query : String) (limit : ℕ) (filters : Dict String) (idx : Index)
    → All
        (λ h. any (comes_from filters h) (log_of idx org_id) ≡ true)
        (search_candidates org_id query limit filters idx)
unfolding search_candidates
search-comes_from org_id query limit filters idx =
    rw (map-take (or_limit limit 12) (select (is_hit query filters) (log_of idx org_id)))
      (All-take _ (or_limit limit 12) _ (hits-come_from query filters (log_of idx org_id)))

length-map : (ds : List IndexDocument) → length (map hit_of ds) ≡ length ds
length-map [] = refl
length-map (d ∷ ds) = omega (arith, length-map ds)

length-select :
    (test : IndexDocument → Bool) (ds : List IndexDocument)
    → length (select test ds) ≡ tally test ds
length-select test [] = refl
length-select test (d ∷ ds) = ground (arith, length-select test ds)

length-take : (n : ℕ) (ds : List IndexDocument) → length (take n ds) ≡ min n (length ds)
length-take zero ds = omega arith
length-take (suc n) [] = omega arith
length-take (suc n) (d ∷ ds) = omega (arith, length-take n ds)

-- A search misses nothing below its limit: it returns as many hits as the organization has
-- documents that pass the filters and meet the query, or the limit where there are more.
pub length-search :
    (org_id query : String) (limit : ℕ) (filters : Dict String) (idx : Index)
    → length (search_candidates org_id query limit filters idx)
      ≡ min (or_limit limit 12) (tally (is_hit query filters) (log_of idx org_id))
unfolding search_candidates
length-search org_id query limit filters idx =
    let hits = select (is_hit query filters) (log_of idx org_id) in
    length-map (take (or_limit limit 12) hits)
    ∙ length-take (or_limit limit 12) hits
    ∙ ap (λ n. min (or_limit limit 12) n) (length-select (is_hit query filters) (log_of idx org_id))

kept-none :
    (ids : List String) (query : String) (filters : Dict String) (ds : List IndexDocument)
    → All
        (λ h. contains ids h.resource_id ≡ false)
        (map hit_of
          (select (is_hit query filters) (select (λ d. not (contains ids d.resource_id)) ds)))
unfolding hit_of
kept-none ids query filters [] = tt
kept-none ids query filters (d ∷ ds) = elim (Bool-cases (contains ids d.resource_id)) [
  | inl y ↦ rw (y) (kept-none ids query filters ds)
  | inr n ↦ elim (Bool-cases (is_hit query filters d)) [
    | inl y ↦ rw (n, y) (n, kept-none ids query filters ds)
    | inr m ↦ rw (n, m) (kept-none ids query filters ds)
  ]
]

-- After a deletion no search of the organization returns a deleted resource, and a search of every
-- other organization returns what it returned before.
delete-search :
    (org_id other query : String) (ids : List String) (limit : ℕ) (filters : Dict String)
    (idx : Index)
    → org_id ≢ other
    → All
        (λ h. contains ids h.resource_id ≡ false)
        (search_candidates org_id query limit filters (delete org_id ids idx))
      × (search_candidates other query limit filters (delete org_id ids idx)
          ≡ search_candidates other query limit filters idx)
unfolding search_candidates delete
delete-search org_id other query ids limit filters idx apart =
    let kept = select (λ d. not (contains ids d.resource_id)) (log_of idx org_id) in
    let own : log_of (put idx org_id kept) org_id ≡ kept =
      ground (arith, log_of-put idx org_id org_id kept, eq_iff org_id org_id) in
    let foreign : log_of (put idx org_id kept) other ≡ log_of idx other =
      ground (arith, log_of-put idx org_id other kept, eq_iff org_id other) in
    (
      rw (own, map-take (or_limit limit 12) (select (is_hit query filters) kept))
          (All-take _ (or_limit limit 12) _ (kept-none ids query filters (log_of idx org_id))),
      ap (λ ds. map hit_of (take (or_limit limit 12) (select (is_hit query filters) ds))) foreign,
    )

find-upsert_doc :
    (d : IndexDocument) (id : String) (ds : List IndexDocument)
    → find_document id (upsert_doc d ds)
      ≡ (if d.resource_id == id then some d else find_document id ds)
unfolding find_document upsert_doc
find-upsert_doc d id [] = refl
find-upsert_doc d id (x ∷ xs) = ground (
  arith,
  find-upsert_doc d id xs,
  eq_iff x.resource_id d.resource_id,
  eq_iff x.resource_id id,
  eq_iff d.resource_id id,
)

-- A document that is written is the one that GetDocument then returns for its organization and its
-- resource; for every other pair GetDocument returns what it returned before.
pub upsert-get_document :
    (d : IndexDocument) (idx : Index) (org_id id : String)
    → get_document org_id id (upsert (d ∷ []) idx)
      ≡ (if d.org_id == org_id && d.resource_id == id then some d else get_document org_id id idx)
unfolding get_document upsert
upsert-get_document d idx org_id id = ground (
  arith,
  log_of-put idx d.org_id org_id (upsert_doc d (log_of idx d.org_id)),
  find-upsert_doc d id (log_of idx d.org_id),
  eq_iff d.org_id org_id,
)
