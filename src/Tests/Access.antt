-- ===== src/Tests/Access.antt =====
-- Authorization and policy.
use gontext.Base.{string_eq, concat, lower, trim_space}
use gontext.Base.{◌≡◌, refl, ◌↔◌, inr}
use gontext.Base.{true, some, List, [], ◌∷◌, length}
use gontext.Base.{String, suc}
use gontext.Base.Dict.{get}
use gontext.Fga.{
  new_memory, write_tuples, delete_tuples, has, deletable, blank_tuple, write_one, grant, revoke,
  can,
}
use gontext.Fga.Model.{Grants}
use gontext.Fga.Check.{allowed, universe, resolve_candidate_scope, format_user}
use gontext.Fga.Decides.{allowed-iff-Grants, can-ends}
use gontext.Fga.{Memory}
use gontext.Base.{arith}
use gontext.Base.Dict.{get2}
use gontext.Fga.Monotone.{write_tuples-keeps-allowed, delete_tuples-gives-nothing}
use gontext.Fga.Outcome.{admin_tuple-survives}
use gontext.Fga.Scope.{member_scope-survives}
use gontext.Policy.{new_provider, evaluate, rank, class_of, normal}
use gontext.Policy.Laws.{Admits, allow-iff-Admits}
use gontext.Tests.Data.{ann, owns_plan, reads_plan, support_request}

abbrev org_scope : gontext.Ports.ScopeResolve
org_scope = record { principal = ann; action = "context.search"; consistency = "" }

allowed-iff-Grants_example :
    (allowed (write_tuples new_memory (owns_plan ∷ [])) "resource:plan" "can_read" "user:ann"
      ≡ true)
    ↔ Grants (write_tuples new_memory (owns_plan ∷ [])) "user:ann" "resource:plan" "can_read"
allowed-iff-Grants_example =
    allowed-iff-Grants (write_tuples new_memory (owns_plan ∷ [])) "resource:plan" "can_read"
      "user:ann"

can-ends_example :
    (visited : List String) × (can
        (suc (length (universe (write_tuples new_memory (owns_plan ∷ [])) "resource:plan")))
        (write_tuples new_memory (owns_plan ∷ []))
        "user:ann"
        "resource:plan"
        "can_read"
        []
      ≡ some (
        allowed (write_tuples new_memory (owns_plan ∷ [])) "resource:plan" "can_read" "user:ann",
        visited,
      ))
can-ends_example =
    can-ends (write_tuples new_memory (owns_plan ∷ [])) "resource:plan" "can_read" "user:ann"

plan_readable :
    allowed (write_tuples new_memory (reads_plan ∷ [])) "resource:plan" "can_read" "user:ann" ≡ true
unfolding allowed gontext.Fga.can gontext.Fga.body gontext.Fga.read_body gontext.Fga.reads_directly
    has get gontext.Base.Dict.get2 write_tuples write_one new_memory grant gontext.Base.Dict.put2
    gontext.Base.Dict.put
plan_readable = refl

write_tuples-keeps-allowed_example :
    allowed
      (write_tuples (write_tuples new_memory (reads_plan ∷ [])) (owns_plan ∷ []))
      "resource:plan"
      "can_read"
      "user:ann"
    ≡ true
write_tuples-keeps-allowed_example =
    write_tuples-keeps-allowed (write_tuples new_memory (reads_plan ∷ [])) (owns_plan ∷ [])
      "resource:plan" "can_read" "user:ann" plan_readable

still_readable :
    allowed
      (delete_tuples (write_tuples new_memory (reads_plan ∷ [])) (owns_plan ∷ []))
      "resource:plan"
      "can_read"
      "user:ann"
    ≡ true
unfolding allowed gontext.Fga.can gontext.Fga.body gontext.Fga.read_body gontext.Fga.reads_directly
    has get gontext.Base.Dict.get2 delete_tuples gontext.Fga.delete_one revoke write_tuples
    write_one new_memory grant gontext.Base.Dict.put2 gontext.Base.Dict.put deletable
still_readable = refl

delete_tuples-gives-nothing_example :
    allowed (write_tuples new_memory (reads_plan ∷ [])) "resource:plan" "can_read" "user:ann" ≡ true
delete_tuples-gives-nothing_example =
    delete_tuples-gives-nothing (write_tuples new_memory (reads_plan ∷ [])) (owns_plan ∷ [])
      "resource:plan" "can_read" "user:ann" still_readable

admin_tuple-survives_example :
    allowed
      (delete_tuples (write_tuples new_memory (owns_plan ∷ [])) (owns_plan ∷ []))
      "resource:plan"
      "can_manage"
      "user:ann"
    ≡ true
unfolding blank_tuple
admin_tuple-survives_example = admin_tuple-survives new_memory owns_plan refl (inr refl)

member_scope-survives_example :
    (resolve_candidate_scope
      (revoke
        (grant new_memory (concat "organization:" "acme") "member" (format_user ann))
        (concat "organization:" "acme")
        "member"
        (format_user ann))
      org_scope).reason_code
    ≡ "AUTHZ_SCOPE_OK"
member_scope-survives_example = member_scope-survives new_memory org_scope

allow-iff-Admits_example :
    ((evaluate new_provider support_request).allow ≡ true) ↔ Admits new_provider support_request
allow-iff-Admits_example = allow-iff-Admits new_provider support_request

support_allowed : (evaluate new_provider support_request).allow ≡ true
unfolding evaluate new_provider normal lower trim_space rank get class_of
support_allowed = refl

support_rank : rank (class_of support_request) ≡ some 2
unfolding rank get normal lower trim_space class_of
support_rank = refl

-- a document below a folder that one user may read
abbrev shared_folder : Memory
shared_folder = record new_memory {
  relations =
      ("folder", ("restricted_reader", ("user:ann", true) ∷ []) ∷ [])
      ∷ ("doc", ("parent", ("folder", true) ∷ []) ∷ [])
      ∷ [];
}
