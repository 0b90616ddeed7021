-- ===== src/Claims/Triage/Histories.antt =====
-- The calculations of a claim, whatever tasks assess it at once: a task reads a candidate and
-- records its calculation in a later step, when the claims and the calculations may have changed.
use misw4501_202614_grupo.Base.{
  ℕ, ◌+◌, ◌<◌, ◌≡◌, refl, ◌⊎◌, inl, inr, Option, none, some, List, [], ◌∷◌, ◌++◌, length, arith,
  ℕ_discrete, if◌then◌else◌, length-append, Option-cases,
}
use misw4501_202614_grupo.Base.Text.{Str, str_eq, str_eq_iff}
use misw4501_202614_grupo.Base.Dict.{insert, lookup-insert}
use misw4501_202614_grupo.Base.Clock.{Time}
use misw4501_202614_grupo.Claims.Triage.{TriageRecord, TriagePolicy, assess, input_of}
use misw4501_202614_grupo.Claims.Triage.Records.{Follows, next_triage_lem}
use misw4501_202614_grupo.Claims.Triage.Store.{
  TriageStore, TriageCandidate, records_of, last_after, add_record,
}
use misw4501_202614_grupo.Claims.Triage.Service.{to_microsecond, next_record, assess_claim}

-- Each calculation follows the one before.
abbrev pub ChainedFrom : Option TriageRecord → List TriageRecord → Type 0
ChainedFrom last [] = Unit
ChainedFrom last (r ∷ rs) = Follows last r × ChainedFrom (some r) rs

abbrev pub seq_of : Option TriageRecord → ℕ
seq_of none = 0
seq_of (some r) = r.seq

seq_of-last :
    (o : Option TriageRecord) (rs : List TriageRecord)
    → ChainedFrom o rs
    → seq_of (last_after o rs) ≡ seq_of o + length rs
seq_of-last o [] h = omega arith
seq_of-last none (r ∷ rs) (f, h) = omega (arith, seq_of-last (some r) rs h, f)
seq_of-last (some l) (r ∷ rs) (f, h) = omega (arith, seq_of-last (some r) rs h, f)

chained-append :
    (o : Option TriageRecord) (rs : List TriageRecord) (r : TriageRecord)
    → ChainedFrom o rs
    → Follows (last_after o rs) r
    → ChainedFrom o (rs ++ (r ∷ []))
chained-append o [] r h f = (f, tt)
chained-append o (q ∷ rs) r (g, h) f = (g, chained-append (some q) rs r h f)

last-append :
    (o : Option TriageRecord) (rs : List TriageRecord) (r : TriageRecord)
    → last_after o (rs ++ (r ∷ [])) ≡ some r
last-append o [] r = refl
last-append o (q ∷ rs) r = last-append (some q) rs r

-- The last calculation of a candidate is still the last one, or others were added since.
abbrev pub Past : Option TriageRecord → List TriageRecord → Type 0
Past o rs = (o ≡ last_after none rs) ⊎ (seq_of o < length rs)

abbrev pub CandidateAt : TriageStore → TriageCandidate → Type 0
CandidateAt s c = Past c.last (records_of c.claim.id s)

next_record-Follows :
    (policy : TriagePolicy) (c : TriageCandidate) (now : Time) {r : TriageRecord}
    → next_record policy c now ≡ some r
    → (r.claim_id ≡ c.claim.id) × Follows c.last r
unfolding next_record
next_record-Follows policy c now e = ground (
  arith,
  next_triage_lem c.claim.id (assess policy (input_of policy c.claim)).0 c.last
      (to_microsecond now),
)

records_of-insert :
    (id j : Str) (rs : List TriageRecord) (s : TriageStore)
    → records_of j (record s { records = insert id rs s.records })
      ≡ (if str_eq id j then rs else records_of j s)
unfolding records_of
records_of-insert id j rs s = ground (arith, lookup-insert id j rs s.records)

module _ (policy : TriagePolicy) (c : TriageCandidate) (now : Time) (s : TriageStore) where
  abbrev appended : TriageRecord → TriageStore
  appended r = record s {
    records = insert c.claim.id (records_of c.claim.id s ++ (r ∷ [])) s.records;
  }

  pub assess_cases :
      ((assess_claim policy c now s).0 ≡ s)
      ⊎ ((r : TriageRecord) × (next_record policy c now ≡ some r)
          × (r.seq ≡ length (records_of c.claim.id s) + 1)
          × ((assess_claim policy c now s).0 ≡ appended r))
  unfolding assess_claim add_record
  assess_cases = elim (Option-cases (next_record policy c now)) [
    | inl e ↦ inl (ground arith)
    | inr (r, e) ↦
        let f = next_record-Follows policy c now e in
        elim (ℕ_discrete r.seq (length (records_of c.claim.id s) + 1)) [
          | yes g ↦ inr (r, e, g, ground arith)
          | no g ↦ inl (ground arith)
        ]
  ]

  pub assess-Chained :
      CandidateAt s c
      → ((j : Str) → ChainedFrom none (records_of j s))
      → (j : Str) → ChainedFrom none (records_of j (assess_claim policy c now s).0)
  assess-Chained at h j = elim assess_cases [
    | inl e ↦ rw e (h j)
    | inr (r, e, g, f) ↦ rw f (
        ground (
          arith,
          records_of-insert c.claim.id j (records_of c.claim.id s ++ (r ∷ [])) s,
          str_eq_iff c.claim.id j,
          next_record-Follows policy c now e,
          seq_of-last none (records_of c.claim.id s) (h c.claim.id),
          chained-append none (records_of c.claim.id s) r (h c.claim.id),
          h j,
        ))
  ]

  pub assess-CandidateAt :
      ((j : Str) → ChainedFrom none (records_of j s))
      → (q : TriageCandidate) → CandidateAt s q
      → CandidateAt (assess_claim policy c now s).0 q
  assess-CandidateAt h q at = elim assess_cases [
    | inl e ↦ rw e at
    | inr (r, e, g, f) ↦ rw f (
        ground (
          arith,
          records_of-insert c.claim.id q.claim.id (records_of c.claim.id s ++ (r ∷ [])) s,
          str_eq_iff c.claim.id q.claim.id,
          length-append (records_of c.claim.id s) (r ∷ []),
          seq_of-last none (records_of q.claim.id s) (h q.claim.id),
        ))
  ]
