-- ===== src/Tests/Search.antt =====
-- The search index.
use gontext.Base.{String, string_eq, ◌==◌, eq_iff, lower}
use gontext.Base.{◌≡◌, refl, ◌≢◌}
use gontext.Base.{true, ◌&&◌, some, [], ◌∷◌}
use gontext.Base.{arith, if◌then◌else◌, any, All}
use gontext.Base.Dict.{Dict, log_of}
use gontext.Index.{
  Index, upsert, search_candidates, match_filters, text_of, class_rank, doc_class, get_document,
}
use gontext.Index.Search.{comes_from, search-comes_from, upsert-get_document}
use gontext.Tests.Data.{acme, plan_document}

abbrev ceiling : Dict String
ceiling = ("classification_ceiling", "internal") ∷ []

abbrev indexed : Index
indexed = upsert (plan_document ∷ []) []

search-comes_from_example :
    All
      (λ h. any (comes_from ceiling h) (log_of indexed acme) ≡ true)
      (search_candidates acme "Plan" 0 ceiling indexed)
search-comes_from_example = search-comes_from acme "Plan" 0 ceiling indexed

apart : acme ≢ "other"
apart e = absurd (ground (arith, eq_iff acme "other"))

upsert-get_document_example : get_document acme "plan" (upsert (plan_document ∷ []) indexed) ≡ (
    if plan_document.org_id == acme && plan_document.resource_id == "plan"
    then some plan_document
    else get_document acme "plan" indexed)
upsert-get_document_example = upsert-get_document plan_document indexed acme "plan"

passes : match_filters plan_document ceiling ≡ true
unfolding match_filters text_of gontext.Base.Dict.get class_rank lower doc_class
passes = refl
