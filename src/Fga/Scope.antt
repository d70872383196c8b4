-- ===== src/Fga/Scope.antt =====
-- The candidate scope of a principal after its membership is written and deleted.
use text.Mathlib.TextPositions.{starts_with-append, slice-append_right, len-append}
use gontext.Base.{String, string_eq, eq_iff, concat, trim_prefix}
use gontext.Base.{◌≡◌}
use gontext.Base.{true, some}
use gontext.Base.{arith}
use gontext.Base.Dict.{get-inner, put2, get2-put2, inner, get}
use gontext.Ports.{ScopeResolve}
use gontext.Fga.{Memory, grant, revoke, writable}
use gontext.Fga.Check.{format_user, resolve_candidate_scope}

prefix_of_org : (org : String) → trim_prefix (concat "organization:" org) "organization:" ≡ org
prefix_of_org org =
    rw (starts_with-append "organization:" org, len-append "organization:" org)
      (slice-append_right "organization:" org)

org_members-revoke : (m : Memory) (o r s : String) → (revoke m o r s).org_members ≡ m.org_members
unfolding revoke
org_members-revoke m o r s = ground arith

org_members-grant :
    (m : Memory) (org u : String)
    → (grant m (concat "organization:" org) "member" u).org_members ≡ put2 m.org_members org u true
unfolding grant writable
org_members-grant m org u =
    ground (arith, prefix_of_org org, starts_with-append "organization:" org)

grant_member :
    (m : Memory) (org u : String)
    → get (inner (grant m (concat "organization:" org) "member" u).org_members org) u ≡ some true
grant_member m org u = rw (org_members-grant m org u) (
    ground (
      arith,
      get-inner (put2 m.org_members org u true) org u,
      get2-put2 m.org_members org u org u true,
      eq_iff org org,
      eq_iff u u,
    ))

-- A principal under its user name in the member map of its organization is in scope.
scope_of_member :
    (m : Memory) (req : ScopeResolve)
    → get (inner m.org_members req.principal.org_id) (format_user req.principal) ≡ some true
    → (resolve_candidate_scope m req).reason_code ≡ "AUTHZ_SCOPE_OK"
unfolding resolve_candidate_scope
scope_of_member m req h = ground arith

-- Deleting the membership tuple of a principal leaves the member map as it was: the scope of a
-- principal that has been a member stays AUTHZ_SCOPE_OK.
pub member_scope-survives :
    (m : Memory) (req : ScopeResolve)
    → (resolve_candidate_scope
        (revoke
          (grant m
            (concat "organization:" req.principal.org_id)
            "member"
            (format_user req.principal))
          (concat "organization:" req.principal.org_id)
          "member"
          (format_user req.principal))
        req).reason_code
      ≡ "AUTHZ_SCOPE_OK"
member_scope-survives m req =
    let org = req.principal.org_id in
    let user = format_user req.principal in
    let granted = grant m (concat "organization:" org) "member" user in
    scope_of_member (revoke granted (concat "organization:" org) "member" user) req (
      rw (org_members-revoke granted (concat "organization:" org) "member" user)
        (grant_member m org user))
