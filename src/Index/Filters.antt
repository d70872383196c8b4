-- ===== src/Index/Filters.antt =====
-- What a document that passes the filters is.
use gontext.Base.{◌≤◌}
use gontext.Base.{String, string_eq, ◌==◌, eq_iff}
use gontext.Base.{◌≡◌, ◌⊎◌, inl, inr}
use gontext.Base.{true}
use gontext.Base.{arith, Bool-cases}
use gontext.Base.Dict.{Dict}
use gontext.Ports.{IndexDocument}
use gontext.Index.{class_rank, doc_class, text_of, match_filters}

-- A document that passes the filters is not above the ceiling, and not of another resource or
-- context space, where the filters name these.
match_filters_lem :
    (d : IndexDocument) (filters : Dict String)
    → match_filters d filters ≡ true
    → ((text_of filters "classification_ceiling" ≡ "")
        ⊎ (class_rank (doc_class d) ≤ class_rank (text_of filters "classification_ceiling")))
      × ((text_of filters "resource_id" ≡ "") ⊎ (d.resource_id ≡ text_of filters "resource_id"))
      × ((text_of filters "context_space_id" ≡ "")
          ⊎ (text_of d.attributes "context_space_id" ≡ text_of filters "context_space_id"))
unfolding match_filters
match_filters_lem d filters h =
    let ceiling = text_of filters "classification_ceiling" in
    let rid = text_of filters "resource_id" in
    let cs = text_of filters "context_space_id" in
    (
      elim (Bool-cases (ceiling == "")) [
        | inl y ↦ inl ((eq_iff ceiling "").0 y)
        | inr n ↦ inr (ground arith)
      ],
      elim (Bool-cases (rid == "")) [
        | inl y ↦ inl ((eq_iff rid "").0 y)
        | inr n ↦ inr ((eq_iff d.resource_id rid).0 (ground arith))
      ],
      elim (Bool-cases (cs == "")) [
        | inl y ↦ inl ((eq_iff cs "").0 y)
        | inr n ↦ inr ((eq_iff (text_of d.attributes "context_space_id") cs).0 (ground arith))
      ],
    )
