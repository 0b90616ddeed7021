-- ===== src/Claims/Triage/Tasks.antt =====
-- Several tasks that assess claims over one store, while the claims change.
use misw4501_202614_grupo.Base.{
  ℕ, ◌≡◌, inl, inr, none, some, List, [], ◌∷◌, Result, ok, err, arith, All, map-All, nth, remove_at,
  nth-All, remove_at-All, List-cases, Option-cases, Result-cases,
}
use misw4501_202614_grupo.Base.Text.{Str, str_eq, str_eq_iff}
use misw4501_202614_grupo.Base.Dict.{Dict, lookup}
use misw4501_202614_grupo.Base.Clock.{Time}
use misw4501_202614_grupo.Claims.Case.{ClaimRecord}
use misw4501_202614_grupo.Claims.Cases.{CaseStore}
use misw4501_202614_grupo.Claims.Triage.{TriagePolicy}
use misw4501_202614_grupo.Claims.Triage.Store.{
  TriageStore, TriageCandidate, TriageError, new_triage_store, records_of, last_record, candidate,
  keep_matching, snapshot,
}
use misw4501_202614_grupo.Claims.Triage.Service.{assess_claim}
use misw4501_202614_grupo.Claims.Triage.Histories.{
  ChainedFrom, CandidateAt, assess-Chained, assess-CandidateAt,
}

-- `flights` are the candidates that tasks read and did not assess yet.
pub record TriageWorld : Type 0 where
  pub store : TriageStore
  pub flights : List TriageCandidate

-- The claims may change to anything between two steps; a task may assess its candidate under any
-- version of the policy, or stop.
pub data Step : Type 0 where
  change_claims : CaseStore → Step
  read : Str → Step
  assess_flight : ℕ → TriagePolicy → Time → Step
  stop : ℕ → Step

abbrev read_by : Result TriageError TriageCandidate → List TriageCandidate → List TriageCandidate
read_by (ok c) flights = c ∷ flights
read_by (err e) flights = flights

unfoldable pub step : TriageWorld → Step → TriageWorld
step w (change_claims cases) =
    let store = w.store in record w { store = record store { cases = cases } }
step w (read id) = record w { flights = read_by (candidate id w.store) w.flights }
step w (assess_flight i policy now) = elim (nth i w.flights) [
  | none ↦ w
  | some c ↦ record w {
    store = (assess_claim policy c now w.store).0;
    flights = remove_at i w.flights;
  }
]
step w (stop i) = record w { flights = remove_at i w.flights }

unfoldable pub run_steps : TriageWorld → List Step → TriageWorld
unfolding step
run_steps w [] = w
run_steps w (a ∷ rest) = run_steps (step w a) rest

abbrev pub started : CaseStore → TriageWorld
started cases = record { store = new_triage_store cases; flights = [] }

record Inv (w : TriageWorld) : Type 0 where
  chained : (id : Str) → ChainedFrom none (records_of id w.store)
  read_before : All (CandidateAt w.store) w.flights

-- A snapshot for an id has only claims of that id.
keep_matching-id :
    (id : Str) (cs : Dict ClaimRecord)
    → All (λ c. c.id ≡ id) (keep_matching (λ c. str_eq c.id id) cs)
unfolding keep_matching
keep_matching-id id [] = tt
keep_matching-id id ((k, c) ∷ cs) = ground (arith, str_eq_iff c.id id, keep_matching-id id cs)

candidate-CandidateAt :
    (id : Str) (s : TriageStore) {c : TriageCandidate} → candidate id s ≡ ok c → CandidateAt s c
unfolding candidate snapshot last_record
candidate-CandidateAt id s e =
    let same_id = keep_matching-id id s.cases.by_id in
    elim (List-cases (keep_matching (λ c. str_eq c.id id) s.cases.by_id)) [
      | inl f ↦ absurd (ground arith)
      | inr (d, rest, f) ↦ ground (arith, keep_matching-id id s.cases.by_id)
    ]

step-Inv : (w : TriageWorld) (a : Step) → Inv w → Inv (step w a)
unfolding step records_of
step-Inv w (change_claims cases) h = record { chained = h.chained; read_before = h.read_before }
step-Inv w (read id) h = elim (Result-cases (candidate id w.store)) [
  | inl (e, f) ↦ rw (step, f) h
  | inr (c, f) ↦
      rw (step, f)
        (record {
          chained = h.chained;
          read_before = (candidate-CandidateAt id w.store f, h.read_before);
        })
]
step-Inv w (assess_flight i policy now) h = elim (Option-cases (nth i w.flights)) [
  | inl e ↦ rw (step, e) h
  | inr (c, e) ↦
      let at = nth-All (CandidateAt w.store) i w.flights e h.read_before in
      rw (step, e)
        (record {
          chained = assess-Chained policy c now w.store at h.chained;
          read_before =
              map-All (assess-CandidateAt policy c now w.store h.chained) (remove_at i w.flights)
                (remove_at-All (CandidateAt w.store) i w.flights h.read_before);
        })
]
step-Inv w (stop i) h = record {
  chained = h.chained;
  read_before = remove_at-All (CandidateAt w.store) i w.flights h.read_before;
}

run_steps-Inv : (w : TriageWorld) (steps : List Step) → Inv w → Inv (run_steps w steps)
unfolding run_steps
run_steps-Inv w [] h = h
run_steps-Inv w (a ∷ rest) h = run_steps-Inv (step w a) rest (step-Inv w a h)

started-Inv : (cases : CaseStore) → Inv (started cases)
unfolding records_of lookup
started-Inv cases = record { chained = λ id. tt; read_before = tt }

-- Whatever tasks assess whatever claims in whatever order, under any versions of the policy and with
-- the claims changing meanwhile, the calculations of every claim are numbered from 1 without a gap,
-- and each has another input than the one before, the causes of the difference and the level before.
pub every_history_chained :
    (cases : CaseStore) (steps : List Step) (id : Str)
    → ChainedFrom none (records_of id (run_steps (started cases) steps).store)
every_history_chained cases steps id =
    (run_steps-Inv (started cases) steps (started-Inv cases)).chained id
