-- ===== src/Ingest/Commit/Ends.antt =====
-- After writeEdges both ends of each edge that asks for them have a record.
use gontext.Base.{ℕ}
use gontext.Base.{String, string_eq, ◌==◌, eq_iff, contains}
use gontext.Base.{◌≡◌, refl, ap, subst, ◌∙◌, sym, ◌≢◌, inl, inr}
use gontext.Base.{Bool, true, false, not, ◌&&◌, ◌||◌, some, List, [], ◌∷◌}
use gontext.Base.{arith, Bool-cases, Option-cases, is_some, All}
use gontext.Base.Dict.{get2, get2-put2_self}
use gontext.Ports.{LedgerRecord}
use gontext.Platform.{ok, err}
use gontext.Ledger.{Store, Step, and_then, found}
use gontext.Ledger.Records.{get_record, insert_placeholder}
use gontext.Mapping.{CanonicalEdge, Host}
use gontext.Mapping.Edges.{is_malformed}
use gontext.Mapping.Edges.Sound.{IsSound}
use gontext.Ingest.Commit.{
  placeholder, forget, ensure_endpoint, ensure_new, ensure_ends, known_after, write_edge,
  write_edges, from_end, to_end,
}
use gontext.Ingest.Commit.Steps.{
  missing, ensure_new-Adds, ensure_ends-Adds, write_edge-Adds, write_edges-Adds,
}

abbrev has_record : String → String → Store → Bool
has_record org_id id s = is_some (get2 s.records org_id id)

-- The ends of an edge that asks for them have a record of the organization.
unfoldable pub HasEnds : String → Store → CanonicalEdge → Type 0
HasEnds org_id s e =
    (not e.ensure_endpoints || (has_record org_id e.from_id s && has_record org_id e.to_id s))
    ≡ true

-- A step that keeps records keeps that there is one.
abbrev Keeps : Store → Store → Type 0
Keeps s t =
    (a b : String) (rec : LedgerRecord)
    → get2 s.records a b ≡ some rec
    → get2 t.records a b ≡ some rec

has_record-kept :
    (org_id id : String) (s t : Store)
    → Keeps s t
    → has_record org_id id s ≡ true
    → has_record org_id id t ≡ true
has_record-kept org_id id s t kept h = elim (Option-cases (get2 s.records org_id id)) [
  | inl e ↦ absurd (ground arith)
  | inr (rec, e) ↦ rw (kept org_id id rec e) refl
]

HasEnds-kept :
    (org_id : String) (s t : Store) (e : CanonicalEdge)
    → Keeps s t
    → HasEnds org_id s e
    → HasEnds org_id t e
unfolding HasEnds
HasEnds-kept org_id s t e kept h =
    ground
      (arith, h, has_record-kept org_id e.from_id s t kept, has_record-kept org_id e.to_id s t kept)

pub All-kept :
    (org_id : String) (s t : Store) (es : List CanonicalEdge)
    → Keeps s t
    → All (HasEnds org_id s) es
    → All (HasEnds org_id t) es
All-kept org_id s t [] kept a = tt
All-kept org_id s t (e ∷ es) kept (h, a) =
    (HasEnds-kept org_id s t e kept h, All-kept org_id s t es kept a)

ensure_endpoint-has :
    (rec : LedgerRecord) (now : ℕ) (s : Store)
    → rec.org_id ≢ ""
    → rec.resource_id ≢ ""
    → has_record rec.org_id rec.resource_id (ensure_endpoint rec now s).1 ≡ true
unfolding ensure_endpoint get_record found insert_placeholder forget
ensure_endpoint-has rec now s org id =
    let named : (rec.org_id == "" || rec.resource_id == "") ≡ false =
      ground (arith, eq_iff rec.org_id "", eq_iff rec.resource_id "") in
    let given : (rec.resource_id == "") ≡ false = ground (arith, eq_iff rec.resource_id "") in
    elim (Option-cases (get2 s.records rec.org_id rec.resource_id)) [
      | inr (old, e) ↦ rw (given, e, found) (rw (e) refl)
      | inl e ↦
          rw (given, e, found, missing "record not found", named, ap is_some e)
            (rw (get2-put2_self s.records rec.org_id rec.resource_id _) refl)
    ]

ensure_new-has :
    (known : Bool) (rec : LedgerRecord) (now : ℕ) (s : Store)
    → rec.org_id ≢ ""
    → rec.resource_id ≢ ""
    → (known ≡ true → has_record rec.org_id rec.resource_id s ≡ true)
    → has_record rec.org_id rec.resource_id (ensure_new known rec now s).1 ≡ true
unfolding ensure_new
ensure_new-has true rec now s org id there = there refl
ensure_new-has false rec now s org id there = ensure_endpoint-has rec now s org id

-- A step that succeeds goes on with the next.
pub and_then-ok {ℓ} :
    {A : Type ℓ} (r : Step (Unit {0})) (next : Unit {0} → Store → Step A)
    → r.0 ≡ ok tt
    → and_then r next ≡ next tt r.1
unfolding and_then
and_then-ok (ok u, s) next h = refl
and_then-ok (err e, s) next h = absurd (cc (h))

-- The identifiers that writeEdges takes for known have a record.
abbrev pub IsKnown : String → List String → Store → Type 0
IsKnown org_id known s = (id : String) → contains known id ≡ true → has_record org_id id s ≡ true

IsKnown-more :
    (org_id new : String) (known : List String) (s t : Store)
    → IsKnown org_id known s
    → Keeps s t
    → has_record org_id new t ≡ true
    → IsKnown org_id (new ∷ known) t
IsKnown-more org_id new known s t k kept there id h = elim (Bool-cases (new == id)) [
  | inl same ↦ subst (λ i. has_record org_id i t ≡ true) ((eq_iff new id).0 same) there
  | inr other ↦ has_record-kept org_id id s t kept (k id (ground arith))
]

module _ (host : Host) (org_id : String) (now : ℕ) (fresh : String → String)
    (named : org_id ≢ "") where
  ensure_ends-has :
      (e : CanonicalEdge) (known : List String) (s : Store)
      → is_malformed e ≡ false
      → IsKnown org_id known s
      → HasEnds org_id (ensure_ends host org_id now fresh e known s).1 e
        × IsKnown org_id
            (known_after host org_id now fresh e known)
            (ensure_ends host org_id now fresh e known s).1
  unfolding ensure_ends known_after placeholder HasEnds is_malformed from_end to_end
  ensure_ends-has e known s formed k = elim (Bool-cases e.ensure_endpoints) [
    | inr n ↦ rw (n) (refl, k)
    | inl y ↦
        let given : e.from_id ≢ "" = λ z. absurd (ground (arith, eq_iff e.from_id "")) in
        let aimed : e.to_id ≢ "" = λ z. absurd (ground (arith, eq_iff e.to_id "")) in
        let from_rec = from_end host org_id now fresh e in
        let to_rec = to_end host org_id now fresh e in
        let is_known = contains (e.from_id ∷ known) e.to_id in
        let one = ensure_new (contains known e.from_id) from_rec now s in
        let a = ensure_new-Adds (contains known e.from_id) from_rec now s named in
        let first =
          ensure_new-has (contains known e.from_id) from_rec now s named given (k e.from_id) in
        let k1 = IsKnown-more org_id e.from_id known s one.1 k a.kept first in
        let two = ensure_new is_known to_rec now one.1 in
        let b = ensure_new-Adds is_known to_rec now one.1 named in
        let second = ensure_new-has is_known to_rec now one.1 named aimed (k1 e.to_id) in
        let k2 = IsKnown-more org_id e.to_id (e.from_id ∷ known) one.1 two.1 k1 b.kept second in
        let here = k2 e.from_id (ground (arith, eq_iff e.from_id e.from_id)) in
        rw (y, and_then-ok one (λ done s1. ensure_new is_known to_rec now s1) a.succeeds)
          (ground (arith, here, second), k2)
  ]

  pub write_edges-HasEnds :
      (es : List CanonicalEdge) (known : List String) (s : Store)
      → All IsSound es
      → IsKnown org_id known s
      → All (HasEnds org_id (write_edges host org_id now fresh es known s).1) es
  unfolding write_edges IsSound
  write_edges-HasEnds [] known s a k = tt
  write_edges-HasEnds (e ∷ es) known s (sound, a) k =
      let one = ensure_ends host org_id now fresh e known s in
      let (ends, k1) = ensure_ends-has e known s sound.0 k in
      let two = write_edge host org_id now fresh e one.1 in
      let b = write_edge-Adds host org_id now fresh named e one.1 sound in
      let more = known_after host org_id now fresh e known in
      let k2 : IsKnown org_id more two.1 =
        λ id h. has_record-kept org_id id one.1 two.1 b.kept (k1 id h) in
      let c = write_edges-Adds host org_id now fresh named es more two.1 a in
      let whole =
        and_then-ok one
          (λ done s1.
            and_then (write_edge host org_id now fresh e s1)
              (λ written s2. write_edges host org_id now fresh es more s2))
          (ensure_ends-Adds host org_id now fresh named e known s).succeeds
        ∙ and_then-ok two (λ written s2. write_edges host org_id now fresh es more s2) b.succeeds in
      subst (λ (r : Step (Unit {0})). All (HasEnds org_id r.1) (e ∷ es)) (sym whole)
        (
          HasEnds-kept org_id two.1 (write_edges host org_id now fresh es more two.1).1 e c.kept
              (HasEnds-kept org_id one.1 two.1 e b.kept ends),
          write_edges-HasEnds es more two.1 a k2,
        )
