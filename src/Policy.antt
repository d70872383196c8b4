-- ===== src/Policy.antt =====
-- internal/policy/policy.go: purpose allowlist, classification ceiling, redaction and limits.
pub mod Laws
use gontext.Base.{ℕ}
use gontext.Base.{String, string_eq, number_eq, ◌==◌, contains}
use gontext.Base.{Bool, true, false, not, ◌&&◌, Option, none, some, List, [], ◌∷◌}
use gontext.Base.{ltb, leb, if◌then◌else◌}
use gontext.Base.{lower, trim_space}
use gontext.Base.Dict.{Dict, get}
use gontext.Ports.{LedgerRecord, PolicyEval, PolicyResult}

-- Higher is more sensitive.
abbrev pub classification_rank : Dict ℕ
classification_rank =
    ("public", 1) ∷ ("internal", 2) ∷ ("confidential", 3) ∷ ("restricted", 4) ∷ ("secret", 5) ∷ []

pub record Provider : Type 0 where
  pub allowed_purposes : List String
  pub max_classification : String
  pub default_max_results : ℕ
  pub confidential_redact : String
  pub public_redact : String

-- New
unfoldable pub new_provider : Provider
new_provider = record {
  allowed_purposes =
      "support" ∷ "account_management" ∷ "marketing" ∷ "finance" ∷ "agent_assist" ∷ "ops"
      ∷ "compliance" ∷ "engineering" ∷ "research" ∷ [];
  max_classification = "restricted";
  default_max_results = 25;
  confidential_redact = "pii_mask";
  public_redact = "none";
}

-- strings.ToLower(strings.TrimSpace(s))
unfoldable pub normal : String → String
normal s = lower (trim_space s)

-- rank: none for an unknown label
unfoldable pub rank : String → Option ℕ
rank c = get classification_rank (normal c)

deny : String → PolicyResult
deny reason = record {
  allow = false;
  redaction_profile = "";
  obligations = [];
  max_results = 0;
  reason_code = reason;
}

-- the class of the request, of the record where the request has none, or "internal"
unfoldable pub record_class : Option LedgerRecord → String
record_class none = ""
record_class (some r) = normal r.classification

unfoldable pub class_of : PolicyEval → String
class_of req =
    let own = normal req.classification in
    let class = if own == "" then record_class req.ledger_record else own in
    if class == "" then "internal" else class

grant : Provider → PolicyEval → ℕ → PolicyResult
grant p req class_rank =
    let sensitive : Bool = elim (rank "confidential") [
      | some conf ↦ leb conf class_rank
      | none ↦ false
    ] in
    record {
      allow = true;
      redaction_profile = if sensitive then p.confidential_redact else p.public_redact;
      obligations =
          "audit_disclosure" ∷ (if sensitive then "mask_pii" ∷ "no_export_raw" ∷ [] else []);
      max_results =
          if ltb 0 req.requested_limit && ltb req.requested_limit p.default_max_results
          then req.requested_limit
          else p.default_max_results;
      reason_code = "policy_ok";
    }

under_ceiling : Provider → PolicyEval → Option ℕ → Option ℕ → PolicyResult
unfolding deny grant
under_ceiling p req none ceiling = deny "classification_unknown"
under_ceiling p req (some class_rank) none = deny "classification_ceiling_misconfigured"
under_ceiling p req (some class_rank) (some max_rank) =
    if ltb max_rank class_rank then deny "classification_ceiling" else grant p req class_rank

-- Evaluate
unfoldable pub evaluate : Provider → PolicyEval → PolicyResult
unfolding under_ceiling deny
evaluate p req =
    let purpose = normal req.purpose in
    if purpose == ""
    then deny "purpose_required"
    else if not (contains p.allowed_purposes purpose)
    then deny "purpose_not_allowed"
    else under_ceiling p req (rank (class_of req)) (rank p.max_classification)
