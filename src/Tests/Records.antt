-- ===== src/Tests/Records.antt =====
-- Records, delegations, keys and logs.
use gontext.Base.{string_eq, eq_iff, concat}
use gontext.Base.{◌≡◌, refl, ◌≢◌}
use gontext.Base.{true, [], ◌∷◌, ◌++◌}
use gontext.Base.{arith}
use gontext.Base.Dict.{get, log_of}
use gontext.Platform.{ok}
use gontext.Ledger.{new_store, or_now}
use gontext.Ledger.Records.Isolation.{upsert, hold, tenant, view, writes, writes-isolated}
use gontext.Ledger.Once.{get_idempotency, put_idempotency, put-get_other_tenant}
use gontext.Ports.{AuditEvent}
use gontext.Audit.{IsClean, append, append-IsClean}
use gontext.Tests.Data.{acme, plan, intake_key, searched}

apart : acme ≢ "other"
apart e = absurd (ground (arith, eq_iff acme "other"))

writes-isolated_example :
    view "other" (writes new_store (upsert plan 5 ∷ hold acme "plan" true ∷ []))
    ≡ view "other" new_store
unfolding tenant
writes-isolated_example =
    writes-isolated new_store (upsert plan 5 ∷ hold acme "plan" true ∷ []) "other"
      (apart, (apart, tt))

key_stored : (put_idempotency intake_key 5 new_store).0 ≡ ok tt
unfolding put_idempotency get
key_stored = refl

put-get_other_tenant_example :
    get_idempotency "acme"
      (concat (concat "eu" "|") "k1")
      (put_idempotency intake_key 5 new_store).1
    ≡ ok (record intake_key { created_at = or_now 5 5 })
put-get_other_tenant_example =
    put-get_other_tenant "acme" "eu" "k1" intake_key 5 new_store refl refl key_stored

append-IsClean_example :
    (logged : AuditEvent) × (log_of (append searched 5 "a9" new_store).audits searched.org_id
      ≡ log_of new_store.audits searched.org_id ++ logged ∷ [])
    × IsClean logged
append-IsClean_example = append-IsClean searched (("Query", "the plan") ∷ []) 5 "a9" new_store refl
