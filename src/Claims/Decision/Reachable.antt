-- ===== src/Claims/Decision/Reachable.antt =====
-- What the decisions and the flights keep under every sequence of steps.
use misw4501_202614_grupo.Base.{
  ℕ, inl, inr, List, [], ◌∷◌, nth, remove_at, nth-All, remove_at-All, map-All, map-All_both,
  Option-cases,
}
use misw4501_202614_grupo.Resilience.{RetryPolicy}
use misw4501_202614_grupo.Claims.Decision.{PayoutRetry, approve, reject}
use misw4501_202614_grupo.Claims.Decision.World.{
  World, Action, tick, file_claim, approve_claim, reject_claim, take_payout, answer, crash, retry,
  gateway_code, send_notice, miss_notice, act, run,
}
use misw4501_202614_grupo.Claims.Decision.Invariant.{FlightAt, Inv}
use misw4501_202614_grupo.Claims.Decision.Steps.{
  file-GoodAt, approve-GoodAt, reject-GoodAt, claim-GoodAt, retry_payout-GoodAt,
  record_gateway_code-GoodAt, record_result-GoodAt, notice_sent-GoodAt, notice_failed-GoodAt,
}
use misw4501_202614_grupo.Claims.Decision.Launch.{claim-launched}
use misw4501_202614_grupo.Claims.Decision.Flights.{
  remove_at-AllApart, nth-Apart, tick-FlightAt, file-FlightAt, decide_if-FlightAt,
  retry_payout-FlightAt, record_gateway_code-FlightAt, notice_sent-FlightAt, notice_failed-FlightAt,
  record_result-FlightAt,
}

module _ (policy : RetryPolicy) (lease : ℕ) where
  pub act-Inv : (w : World) (a : Action) → Inv lease w → Inv lease (act policy lease w a)
  unfolding act
  act-Inv w (tick n) h = record {
    good = h.good;
    flying = map-All (tick-FlightAt n w.clock lease w.store) w.flights h.flying;
    apart = h.apart;
  }
  act-Inv w (file_claim c) h = record {
    good = λ j. file-GoodAt c j w.store (h.good j);
    flying = map-All (file-FlightAt c w.clock lease w.store) w.flights h.flying;
    apart = h.apart;
  }
  act-Inv w (approve_claim c cov holder gross by at) h = record {
    good = λ j. approve-GoodAt c cov holder gross by at j w.store (h.good j);
    flying =
        map-All (decide_if-FlightAt (approve c cov holder gross by at) w.clock lease w.store)
          w.flights h.flying;
    apart = h.apart;
  }
  act-Inv w (reject_claim c reason to by at) h = record {
    good = λ j. reject-GoodAt c reason to by at j w.store (h.good j);
    flying =
        map-All (decide_if-FlightAt (reject c reason to by at) w.clock lease w.store) w.flights
          h.flying;
    apart = h.apart;
  }
  act-Inv w (take_payout id) h =
      let both = claim-launched id w.clock lease w.store w.flights (h.good id) h.flying h.apart in
      record {
        good = λ j. claim-GoodAt id w.clock lease j w.store (h.good id) (h.good j);
        flying = both.0;
        apart = both.1;
      }
  act-Inv w (answer i a) h = elim (Option-cases (nth i w.flights)) [
    | inl e ↦ rw (act, e) h
    | inr (rec, e) ↦
        rw (act, e)
          (record {
            good = λ j.
                record_result-GoodAt policy a rec w.clock lease j w.store
                  (nth-All (FlightAt w.store w.clock lease) i w.flights e h.flying)
                  (h.good rec.claim_id) (h.good j);
            flying =
                map-All_both
                  (λ q.
                    record_result-FlightAt policy a rec w.clock lease w.store q
                      (nth-All (FlightAt w.store w.clock lease) i w.flights e h.flying))
                  (remove_at i w.flights) (nth-Apart i w.flights e h.apart)
                  (remove_at-All (FlightAt w.store w.clock lease) i w.flights h.flying);
            apart = remove_at-AllApart i w.flights h.apart;
          })
  ]
  act-Inv w (crash i) h = record {
    good = h.good;
    flying = remove_at-All (FlightAt w.store w.clock lease) i w.flights h.flying;
    apart = remove_at-AllApart i w.flights h.apart;
  }
  act-Inv w (retry id by destination) h =
      let r : PayoutRetry = record { by = by; at = w.clock; destination = destination } in
      record {
        good = λ j. retry_payout-GoodAt id r j w.store (h.good id) (h.good j);
        flying = map-All (retry_payout-FlightAt id r w.clock lease w.store) w.flights h.flying;
        apart = h.apart;
      }
  act-Inv w (gateway_code id code) h = record {
    good = λ j. record_gateway_code-GoodAt id code j w.store (h.good id) (h.good j);
    flying =
        map-All (record_gateway_code-FlightAt id code w.clock lease w.store) w.flights h.flying;
    apart = h.apart;
  }
  act-Inv w (send_notice id) h = record {
    good = λ j. notice_sent-GoodAt id w.clock j w.store (h.good id) (h.good j);
    flying = map-All (notice_sent-FlightAt id w.clock w.clock lease w.store) w.flights h.flying;
    apart = h.apart;
  }
  act-Inv w (miss_notice id next cause) h = record {
    good = λ j. notice_failed-GoodAt id next cause j w.store (h.good id) (h.good j);
    flying =
        map-All (notice_failed-FlightAt id next cause w.clock lease w.store) w.flights h.flying;
    apart = h.apart;
  }

  pub run-Inv :
      (w : World) (actions : List Action) → Inv lease w → Inv lease (run policy lease w actions)
  unfolding run
  run-Inv w [] h = h
  run-Inv w (a ∷ rest) h = run-Inv (act policy lease w a) rest (act-Inv w a h)
