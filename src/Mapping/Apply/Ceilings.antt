-- ===== src/Mapping/Apply/Ceilings.antt =====
-- What a mapping cannot do: the limits of the source's registration.
use gontext.Base.{ℕ, ◌≤◌}
use gontext.Base.{String, string_eq, ◌==◌, contains}
use gontext.Base.{◌≡◌, refl, subst, ◌∙◌, inl, inr}
use gontext.Base.{Bool, true, false, not, ◌&&◌, ◌||◌, some, List, [], ◌∷◌}
use gontext.Base.{arith, ltb, Bool-cases, length, All}
use gontext.Base.Sort.{tally}
use gontext.Base.Dict.{Dict, get, put, get-put, get-put_self}
use gontext.Platform.{ok, >>=-eq-ok, ok_injective, err_forbidden}
use gontext.Mapping.{
  Json, Spec, SourceCeilings, Canonical, CanonicalEdge, Constraints, Host, rank_within, rank_trust,
  rank_authority, rank_classification, no_constraints, cannot_broaden, enforce_constraints,
  enforce_ceilings, parent_allowed_for_authz_sync, check_sync, enforce_parent_authz_sync,
}
use gontext.Mapping.Eval.{eval_string}
use gontext.Mapping.Edges.{edge_key, resolve_edges}
use gontext.Mapping.Edges.Sound.{IsSound, resolve_edges-IsSound}
use gontext.Mapping.Apply.{
  put_some, governed, mapped_fields, identified, governed_fields, eval_time, apply,
}

-- Trust, authority, classification and the visibility reference stay within the source's ceilings,
-- where the source sets them.
unfoldable pub IsCapped : SourceCeilings → Canonical → Type 0
IsCapped ceilings out =
    ((ceilings.trust_ceiling == ""
        || rank_within (rank_trust out.trust) (rank_trust ceilings.trust_ceiling))
      ≡ true)
    × ((ceilings.authority_ceiling == ""
          || rank_within (rank_authority out.authority) (rank_authority ceilings.authority_ceiling))
        ≡ true)
    × ((ceilings.classification_ceiling == ""
          || rank_within (rank_classification out.classification)
              (rank_classification ceilings.classification_ceiling))
        ≡ true)
    × ((out.visibility_ref == ""
          || not (ltb 0 (length ceilings.allowed_visibility_refs))
          || contains ceilings.allowed_visibility_refs out.visibility_ref)
        ≡ true)

-- An edge asks for inheritance only from a parent that the source's references allow.
unfoldable pub InheritsOnly : SourceCeilings → CanonicalEdge → Type 0
InheritsOnly ceilings e =
    (not e.sync_authz_parent
      || parent_allowed_for_authz_sync e.to_id ceilings.allowed_visibility_refs)
    ≡ true

-- What Apply promises of its result.
unfoldable pub IsWithin : SourceCeilings → Canonical → Type 0
IsWithin ceilings out =
    (out.organization_id ≡ ceilings.organization_id)
    × IsCapped ceilings out
    × ((not (ltb 0 (length ceilings.allowed_record_types))
          || contains ceilings.allowed_record_types out.resource_type)
        ≡ true)
    × (get out.attributes "trust" ≡ some out.trust)
    × (get out.attributes "authority" ≡ some out.authority)
    × All (InheritsOnly ceilings) out.edges
    × All IsSound out.edges
    × ((k : String) → tally (λ (e : CanonicalEdge). edge_key e == k) out.edges ≤ 1)

enforce_ceilings-IsCapped :
    (out : Canonical) (ceilings : SourceCeilings)
    → enforce_ceilings out ceilings ≡ ok tt
    → IsCapped ceilings out
unfolding enforce_ceilings IsCapped err_forbidden
enforce_ceilings-IsCapped out ceilings h = ground arith

constraints-cannot_broaden :
    (c : Constraints) → enforce_constraints c ≡ ok tt → cannot_broaden c ≡ true
unfolding enforce_constraints cannot_broaden no_constraints err_forbidden
constraints-cannot_broaden c h = ground arith

check_sync-InheritsOnly :
    (es : List CanonicalEdge) (ceilings : SourceCeilings)
    → check_sync es ceilings.allowed_visibility_refs ≡ ok tt
    → All (InheritsOnly ceilings) es
unfolding check_sync InheritsOnly
check_sync-InheritsOnly [] ceilings h = tt
check_sync-InheritsOnly (e ∷ es) ceilings h =
    elim (Bool-cases (
      e.sync_authz_parent
      && not (parent_allowed_for_authz_sync e.to_id ceilings.allowed_visibility_refs))) [
        | inl y ↦ absurd (cc (rw (y, check_sync) at h))
        | inr n ↦ (ground arith, check_sync-InheritsOnly es ceilings (rw (n, check_sync) at h))
      ]

get-put_some :
    (k v j : String) (m : Dict String) → (k == j) ≡ false → get (put_some k v m) j ≡ get m j
unfolding put_some
get-put_some k v j m ne = ground (arith, get-put m k j v)

-- the three attributes that are always written
written : Canonical → Dict String → Dict String
written c m =
    put (put (put m "trust" c.trust) "authority" c.authority) "source_authority" c.authority

governed-written :
    (c : Canonical) (m : Dict String) (j : String)
    → ("content_locator" == j) ≡ false
    → ("context_space_id" == j) ≡ false
    → ("purpose_allowlist" == j) ≡ false
    → ("visibility_ref" == j) ≡ false
    → get (governed c m) j ≡ get (written c m) j
unfolding governed written
governed-written c m j e0 e1 e2 e3 =
    get-put_some "content_locator" c.content_locator j _ e0
    ∙ get-put_some "context_space_id" c.context_space_id j _ e1
    ∙ get-put_some "purpose_allowlist" c.purpose_allowlist j _ e2
    ∙ get-put_some "visibility_ref" c.visibility_ref j _ e3

governed-authority :
    (c : Canonical) (m : Dict String)
    → (get (governed c m) "trust" ≡ some c.trust)
      × (get (governed c m) "authority" ≡ some c.authority)
unfolding written
governed-authority c m =
    let m1 = put m "trust" c.trust in
    let m2 = put m1 "authority" c.authority in
    (
      governed-written c m "trust" refl refl refl refl
          ∙ get-put m2 "source_authority" "trust" c.authority
          ∙ get-put m1 "authority" "trust" c.authority
          ∙ get-put_self m "trust" c.trust,
      governed-written c m "authority" refl refl refl refl
          ∙ get-put m2 "source_authority" "authority" c.authority
          ∙ get-put_self m1 "authority" c.authority,
    )

governed_fields-IsWithin :
    (host : Host) (spec : Spec) (payload : Json) (ceilings : SourceCeilings) (fresh : String)
    (fields out : Canonical)
    → fields.organization_id ≡ ceilings.organization_id
    → governed_fields host spec payload ceilings fresh fields ≡ ok out
    → IsWithin ceilings out
unfolding governed_fields enforce_parent_authz_sync
governed_fields-IsWithin host spec payload ceilings fresh fields out org h =
    let (u, e0, h0) = >>=-eq-ok (enforce_constraints spec.constraints) _ h in
    let (v, e1, h1) = >>=-eq-ok (enforce_ceilings fields ceilings) _ h0 in
    let c = identified fields fresh in
    elim (Bool-cases (
      ltb 0 (length ceilings.allowed_record_types)
      && not (contains ceilings.allowed_record_types c.resource_type))) [
        | inl y ↦ absurd (cc (rw (y) at h1))
        | inr n ↦
            let (edges, e2, h2) =
              >>=-eq-ok
                (resolve_edges host spec.mappings.parent_resource_id spec.edges payload
                  c.resource_id c.visibility_ref)
                _ (rw (n) at h1) in
            let (w, e3, h3) =
              >>=-eq-ok (enforce_parent_authz_sync edges ceilings spec.constraints) _ h2 in
            let sound =
              resolve_edges-IsSound host spec.mappings.parent_resource_id spec.edges payload
                c.resource_id c.visibility_ref edges e2 in
            subst (IsWithin ceilings) (ok_injective h3) (
              unfold IsWithin identified IsCapped in
              (
                org,
                enforce_ceilings-IsCapped fields ceilings e1,
                ground arith,
                (governed-authority c c.attributes).0,
                (governed-authority c c.attributes).1,
                synced edges e0 e3,
                sound.0,
                sound.1,
              ))
      ]
  where
    synced :
        (edges : List CanonicalEdge)
        → enforce_constraints spec.constraints ≡ ok tt
        → enforce_parent_authz_sync edges ceilings spec.constraints ≡ ok tt
        → All (InheritsOnly ceilings) edges
    synced edges e0 e3 =
        check_sync-InheritsOnly edges ceilings
          (rw (constraints-cannot_broaden spec.constraints e0, enforce_parent_authz_sync) at e3)

-- Whatever a payload and a mapping say, a result of Apply belongs to the source's organization;
-- its trust, authority, classification and visibility reference stay within the ceilings that the
-- source sets; its type is one that the source allows; its attributes name this trust and this
-- authority; its edges are sound, in the sense of IsSound, which lets a confidence pass that is not a
-- number, no two have the same key, and they ask for inheritance only from parents that the source's
-- references allow.
pub apply-IsWithin :
    (host : Host) (spec : Spec) (payload : Json) (ceilings : SourceCeilings) (dry_run : Bool)
    (fresh : String) (now : ℕ) (out : Canonical)
    → apply host spec payload ceilings dry_run fresh now ≡ ok out
    → IsWithin ceilings out
unfolding apply
apply-IsWithin host spec payload ceilings dry_run fresh now out h =
    elim (Bool-cases (ceilings.organization_id == "")) [
      | inl y ↦ absurd (cc (rw (y, apply) at h))
      | inr a ↦
          elim (Bool-cases (
            not (spec.organization_id == "")
            && not (spec.organization_id == ceilings.organization_id))) [
              | inl y ↦ absurd (cc (rw (a, y, apply) at h))
              | inr b ↦
                  let mapped_org = eval_string host spec.mappings.organization_id payload in
                  elim (Bool-cases
                    (not (mapped_org == "") && not (mapped_org == ceilings.organization_id))) [
                      | inl y ↦ absurd (cc (rw (a, b, y, apply) at h))
                      | inr c ↦
                          let (t, e0, h0) =
                            >>=-eq-ok (eval_time host spec.mappings.occurred_at payload now) _
                              (rw (a, b, c, apply) at h) in
                          let (o, e1, h1) =
                            >>=-eq-ok (eval_time host spec.mappings.observed_at payload now) _ h0 in
                          governed_fields-IsWithin host spec payload ceilings fresh
                            (mapped_fields host spec payload ceilings t o dry_run) out
                            (unfold mapped_fields in refl) h1
                    ]
            ]
    ]
