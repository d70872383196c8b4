-- ===== src/Ingest/Intake/Truth.antt =====
-- What an intake does to the record of a source of truth.
use gontext.Base.{ℕ}
use gontext.Base.{String, string_eq, ◌==◌, eq_iff}
use gontext.Base.{◌≡◌, refl, sym, ap, subst, ◌∙◌, ◌⊎◌, inl, inr}
use gontext.Base.{true, false, ◌&&◌, Option, some}
use gontext.Base.{arith, Bool-cases}
use gontext.Base.Dict.{get2}
use gontext.Ports.{LedgerRecord}
use gontext.Platform.{ok, ok_injective}
use gontext.Ledger.{Store}
use gontext.Ledger.Records.{promoted}
use gontext.Mapping.{to_record}
use gontext.Ingest.{
  Request, IntakeResult, Codec, is_generated, is_source_of_truth, would_overwrite, preserve,
}
use gontext.Ingest.Commit.{merged}
use gontext.Ingest.Commit.Outcome.{merged-keys}
use gontext.Ingest.Intake.{Fresh, PutEvidence, World, Act, record_of, intake}
use gontext.Ingest.Intake.Taken.{Taken, IsAtomic, new_record}
use gontext.Ingest.Intake.Outcome.{intake-IsAtomic}

-- what an observation must leave of a record of a source of truth
unfoldable pub Kept : LedgerRecord → LedgerRecord → Type 0
Kept old new =
    (new.title ≡ old.title)
    × (new.classification ≡ old.classification)
    × (new.labels ≡ old.labels)
    × (new.kind ≡ old.kind)
    × (new.external_id ≡ old.external_id)
    × (new.source_system ≡ old.source_system)

merged-Kept :
    (rec old new : LedgerRecord) (now : ℕ)
    → is_source_of_truth old ≡ true
    → merged true rec (some old) now ≡ ok new
    → Kept old new
unfolding merged preserve Kept
merged-Kept rec old new now truth h = elim (Bool-cases (would_overwrite old rec)) [
  | inl y ↦ absurd (cc (rw (truth, y, merged) at h))
  | inr n ↦
      subst (Kept old) (ok_injective (rw (truth, n, merged) at h))
        (refl, refl, refl, refl, refl, refl)
]

promoted-Kept :
    (old new : LedgerRecord) (before : Option LedgerRecord) (now : ℕ)
    → Kept old new
    → Kept old (promoted before new now)
unfolding Kept promoted
promoted-Kept old new before now k = k

module _ (codec : Codec) (evidence : Option PutEvidence) (now : ℕ) (fresh : Fresh) where
  -- The record is as it was, or holds all that an observation must leave of it; or the intake took
  -- the request, with canonical fields of this record that are no observation.
  unfoldable pub KeepsTruth : Request → String → LedgerRecord → World → Act IntakeResult → Type 0
  KeepsTruth req id old w r =
      (get2 r.1.ledger.records req.org_id id ≡ some old)
      ⊎ (((new : LedgerRecord) × (get2 r.1.ledger.records req.org_id id ≡ some new) × Kept old new)
          ⊎ ((t : Taken codec evidence now fresh req w r) × (t.canonical.resource_id ≡ id)
              × (is_generated t.canonical
                    (new_record codec evidence now fresh req t.source t.canonical)
                  ≡ false)))

  Taken-KeepsTruth :
      (req : Request) (w : World) (id : String) (old : LedgerRecord) (r : Act IntakeResult)
      → get2 w.ledger.records req.org_id id ≡ some old
      → is_source_of_truth old ≡ true
      → Taken codec evidence now fresh req w r
      → KeepsTruth req id old w r
  unfolding KeepsTruth new_record record_of to_record
  Taken-KeepsTruth req w id old r there truth t =
      let rec = new_record codec evidence now fresh req t.source t.canonical in
      elim (Bool-cases (t.new.org_id == req.org_id && t.new.resource_id == id)) [
        | inr n ↦ inl (t.wrote.others req.org_id id old n there)
        | inl y ↦
            let org : t.new.org_id ≡ req.org_id =
              ground (arith, eq_iff t.new.org_id req.org_id, eq_iff t.new.resource_id id) in
            let named : t.new.resource_id ≡ id =
              ground (arith, eq_iff t.new.org_id req.org_id, eq_iff t.new.resource_id id) in
            let to = (merged-keys _ rec t.old t.new now t.merges).1 in
            let was : t.old ≡ some old =
              sym t.before ∙ ap (get2 w.ledger.records req.org_id) (sym to ∙ named) ∙ there in
            elim (Bool-cases (is_generated t.canonical rec)) [
              | inr n ↦ inr (inr (t, sym to ∙ named, n))
              | inl g ↦ inr (
                  inl (
                    promoted (get2 w.ledger.records t.new.org_id t.new.resource_id) t.new now,
                    ap (λ o. get2 r.1.ledger.records o id) (sym org)
                        ∙ ap (get2 r.1.ledger.records t.new.org_id) (sym named)
                        ∙ t.wrote.stored,
                    promoted-Kept old t.new _ now (
                        merged-Kept rec old t.new now truth (
                          subst (λ o. merged true rec o now ≡ ok t.new) was
                            (subst (λ x. merged x rec t.old now ≡ ok t.new) g t.merges))),
                  ))
            ]
      ]

  -- An intake, whatever its request, changes nothing of the title, classification, labels, kind and
  -- origin of a record that its source holds as the truth, unless it takes the request and what its
  -- payload maps to that record is no observation (its trust, authority and type say so).
  pub intake-KeepsTruth :
      (req : Request) (w : World) (id : String) (old : LedgerRecord)
      → get2 w.ledger.records req.org_id id ≡ some old
      → is_source_of_truth old ≡ true
      → KeepsTruth req id old w (intake codec evidence now fresh req w)
  unfolding IsAtomic KeepsTruth
  intake-KeepsTruth req w id old there truth =
      elim (intake-IsAtomic codec evidence now fresh req w) [
        | inl (same, puts, quiet) ↦
            inl (ap (λ (t : Store). get2 t.records req.org_id id) same ∙ there)
        | inr t ↦ Taken-KeepsTruth req w id old _ there truth t
      ]
