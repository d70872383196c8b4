-- ===== src/Tests/Webhooks.antt =====
-- Deliveries to a webhook that answers, and to one that does not.
use gontext.Base.{string_eq}
use gontext.Base.{◌≡◌, refl}
use gontext.Base.{true, false, [], ◌∷◌}
use gontext.Base.Count.{Every}
use gontext.Ports.{ChangeEvent}
use gontext.Platform.{ok}
use gontext.Ledger.{or_limit}
use gontext.Delivery.{Subscription, Stamp, Response, answered, push_one}
use gontext.Delivery.Bounds.{IsBounded, pushes, pushes-IsBounded}
use gontext.Delivery.Once.{push_one-push_one}
use gontext.Tests.Data.{acme}

abbrev hook : Subscription
hook = record {
  id = "w1";
  org_id = acme;
  target_url = "https://hooks.example";
  events = [];
  secret = "s";
  enabled = true;
  created_at = 1;
}

abbrev purged : ChangeEvent
purged = record {
  event_id = "ev1";
  org_id = acme;
  resource_id = "plan";
  revision_id = "r1";
  action = "resource.purged";
  cursor = "r1";
  occurred_at = 5;
}

abbrev at_six : Stamp
at_six = record { now = 6; delivery_id = "d1"; payload_sha = "x" }

abbrev accepts : Subscription → ChangeEvent → Response
accepts sub ev = answered 204

abbrev refuses : Subscription → ChangeEvent → Response
refuses sub ev = answered 500

pushes-IsBounded_example :
    Every (IsBounded (or_limit 0 8)) (pushes refuses 0 ((hook, purged, at_six) ∷ []) [])
pushes-IsBounded_example = pushes-IsBounded refuses 0 ((hook, purged, at_six) ∷ [])

delivered : (push_one accepts 3 hook purged at_six []).1 ≡ ok tt
unfolding push_one gontext.Delivery.has_successful_delivery gontext.Base.Dict.log_of
    gontext.Base.Dict.get gontext.Delivery.is_waiting gontext.Delivery.next_attempt_at
    gontext.Delivery.failed_attempt_count gontext.Delivery.posted
delivered = refl

push_one-push_one_example :
    ((push_one accepts 3 hook purged at_six (push_one accepts 3 hook purged at_six []).2).0 ≡ false)
    × ((push_one accepts 3 hook purged at_six (push_one accepts 3 hook purged at_six []).2).1
        ≡ ok tt)
push_one-push_one_example = push_one-push_one accepts 3 hook purged at_six at_six [] delivered
