-- ===== src/Payments/Gateway/Replay.antt =====
-- What a retry with the same key gets from the gateway.
use misw4501_202614_grupo.Base.{
  ℕ, ◌≡◌, refl, inl, inr, true, none, some, List, [], ◌∷◌, arith, ◌∙◌, sym, if◌then◌else◌,
  Option-cases, Bool-cases,
}
use misw4501_202614_grupo.Base.Int.{eq_ℤ_iff}
use misw4501_202614_grupo.Base.Text.{Str, lit, str_eq_iff, str_eq_refl, trim_space}
use misw4501_202614_grupo.Base.Dict.{lookup, lookup-insert}
use misw4501_202614_grupo.Base.Clock.{Time}
use misw4501_202614_grupo.Payments.Gateway.{
  bad_key, valid_charge_request, error_body, reused, GatewayCharge, GatewayPayout, ChargeResult,
  Body, Gateway, same_charge, decide, process_new, process, process_payout, tokenise, handle_charge,
  handle_payout, replay_status, declined_result, made_result, charge_counted,
}
use misw4501_202614_grupo.Payments.Gateway.Once.{
  Request, ask_charge, ask_payout, ask_token, serve, serve_all, seen-same, pay_seen-same,
  pay_new-rest, payout_counted, charge_either, payout_either, token_either,
}

abbrev pub Keeps : Str → ChargeResult → Gateway → Type 0
Keeps k res g = (g.supports_idempotency ≡ true) × (lookup k g.by_key ≡ some res)

same_charge_refl : (r : GatewayCharge) → same_charge r r ≡ true
unfolding same_charge
same_charge_refl r = ground (
  arith,
  str_eq_refl r.reference,
  str_eq_refl r.customer_id,
  eq_ℤ_iff r.amount_minor r.amount_minor,
  str_eq_refl r.currency,
  str_eq_refl r.payment_token,
)

-- What a key that keeps a result answers a request with.
abbrev answer_status : ChargeResult → GatewayCharge → ℕ
answer_status res r = if same_charge res.request r then replay_status res.status else 422

abbrev answer_body : ChargeResult → GatewayCharge → Body
answer_body res r =
    if same_charge res.request r
    then res.body
    else error_body (reused (lit "this Idempotency-Key was used with a different charge"))

module _ (itoa : ℕ → Str) where
  -- The answer of a new key is kept.
  process_new-kept :
      (key : Str) (r : GatewayCharge) (now : Time) (g : Gateway)
      → g.supports_idempotency ≡ true
      → (res : ChargeResult) × Keeps key res (process_new itoa key r now g).0
        × (res.request ≡ r)
        × ((process_new itoa key r now g).1 ≡ res.status)
        × ((process_new itoa key r now g).2 ≡ res.body)
        × (replay_status (replay_status res.status) ≡ replay_status res.status)
  unfolding process_new
  process_new-kept key r now g h = elim (Option-cases (decide r g)) [
    | inl d ↦
        rw (process_new, d)
          (
            made_result itoa key r now g,
            (
              h,
              ground (
                arith,
                lookup-insert key key (made_result itoa key r now g) g.by_key,
                str_eq_refl key,
              ),
            ),
            refl,
            refl,
            refl,
            refl,
          )
    | inr (reason, d) ↦
        rw (process_new, d)
          (
            declined_result itoa r reason g,
            (
              h,
              ground (
                arith,
                lookup-insert key key (declined_result itoa r reason g) g.by_key,
                str_eq_refl key,
              ),
            ),
            refl,
            refl,
            refl,
            refl,
          )
  ]

  process_new_retains :
      (key k : Str) (r : GatewayCharge) (now : Time) (g : Gateway) (res : ChargeResult)
      → lookup key g.by_key ≡ none
      → Keeps k res g
      → Keeps k res (process_new itoa key r now g).0
  unfolding process_new
  process_new_retains key k r now g res e (h, j) = elim (Option-cases (decide r g)) [
    | inl d ↦
        rw (process_new, d)
          (
            h,
            ground (
              arith,
              lookup-insert key k (made_result itoa key r now g) g.by_key,
              str_eq_iff key k,
            ),
          )
    | inr (reason, d) ↦
        rw (process_new, d)
          (
            h,
            ground (
              arith,
              lookup-insert key k (declined_result itoa r reason g) g.by_key,
              str_eq_iff key k,
            ),
          )
  ]

  process_retains :
      (key k : Str) (r : GatewayCharge) (now : Time) (g : Gateway) (res : ChargeResult)
      → Keeps k res g
      → Keeps k res (process itoa key r now g).0
  unfolding process
  process_retains key k r now g res h = elim (Option-cases (lookup key g.by_key)) [
    | inl e ↦ rw (process, e) (process_new_retains key k r now (charge_counted key g) res e h)
    | inr (prev, e) ↦ rw (process, e, seen-same itoa key r now prev (charge_counted key g) h.0) h
  ]

  process_payout_retains :
      (key k : Str) (r : GatewayPayout) (now : Time) (g : Gateway) (res : ChargeResult)
      → Keeps k res g
      → Keeps k res (process_payout itoa key r now g).0
  unfolding process_payout
  process_payout_retains key k r now g res h =
      let g' = payout_counted key g in
      elim (Option-cases (lookup key g.payout_by_key)) [
        | inl e ↦
            let rest = pay_new-rest itoa key r now g' in
            rw (process_payout, e) (rest.0 ∙ h.0, rw rest.1 h.1)
        | inr (prev, e) ↦ rw (process_payout, e, pay_seen-same itoa key r now prev g' h.0) h
      ]

  serve_retains :
      (g : Gateway) (q : Request) (k : Str) (res : ChargeResult)
      → Keeps k res g
      → Keeps k res (serve itoa g q)
  unfolding serve handle_charge handle_payout tokenise
  serve_retains g (ask_charge header r now) k res h =
      charge_either itoa (Keeps k res) header r now g h
        (process_retains (trim_space header) k r now g res h)
  serve_retains g (ask_payout header r now) k res h =
      payout_either itoa (Keeps k res) header r now g h
        (process_payout_retains (trim_space header) k r now g res h)
  serve_retains g (ask_token sent) k res h = token_either itoa (Keeps k res) sent g h λ f. h

  serve_all_retains :
      (g : Gateway) (qs : List Request) (k : Str) (res : ChargeResult)
      → Keeps k res g
      → Keeps k res (serve_all itoa g qs)
  unfolding serve_all
  serve_all_retains g [] k res h = h
  serve_all_retains g (q ∷ qs) k res h =
      serve_all_retains (serve itoa g q) qs k res (serve_retains g q k res h)

  -- The answer to a request with a key that was seen.
  process-answer :
      (key : Str) (r : GatewayCharge) (now : Time) (res : ChargeResult) (g : Gateway)
      → Keeps key res g
      → ((process itoa key r now g).1 ≡ answer_status res r)
        × ((process itoa key r now g).2 ≡ answer_body res r)
  unfolding process
  process-answer key r now res g (h, e) = rw (process, e) (ground arith)

  -- The answer of a request is one that its retries get, while the key keeps its result.
  process-kept :
      (key : Str) (r : GatewayCharge) (now : Time) (g : Gateway)
      → g.supports_idempotency ≡ true
      → (res : ChargeResult) × Keeps key res (process itoa key r now g).0
        × (answer_status res r ≡ replay_status (process itoa key r now g).1)
        × (answer_body res r ≡ (process itoa key r now g).2)
  unfolding process
  process-kept key r now g h = elim (Option-cases (lookup key g.by_key)) [
    | inl e ↦
        let (res, kept, same, status, body, twice) =
          process_new-kept key r now (charge_counted key g) h in
        rw (process, e)
          (
            res,
            kept,
            rw (same, same_charge_refl r, status) refl,
            rw (same, same_charge_refl r, body) refl,
          )
    | inr (prev, e) ↦
        let (status, body) = process-answer key r now prev g (h, e) in
        (prev, process_retains key key r now g prev (h, e), rw status (ground arith), sym body)
  ]

  -- A charge that is sent again with the same key, after any other requests that a gateway which
  -- honours the keys served meanwhile, gets the body of the first answer, with the status 200 in
  -- place of 201 and the same status otherwise.
  pub replayed :
      (header : Str) (r : GatewayCharge) (now later : Time) (g : Gateway) (between : List Request)
      → g.supports_idempotency ≡ true
      → let first = handle_charge itoa header r now g in
        let again = handle_charge itoa header r later (serve_all itoa first.0 between) in
        (again.1 ≡ replay_status first.1) × (again.2 ≡ first.2)
  unfolding handle_charge
  replayed header r now later g between h = elim (Bool-cases (bad_key (trim_space header))) [
    | inl e ↦ rw (handle_charge, e) (refl, refl)
    | inr e ↦ elim (Bool-cases (valid_charge_request r)) [
      | inr f ↦ rw (handle_charge, e, f) (refl, refl)
      | inl f ↦
          let (res, kept, status, body) = process-kept (trim_space header) r now g h in
          let (status', body') = process-answer (trim_space header) r later res _ (
            serve_all_retains (process itoa (trim_space header) r now g).0 between
              (trim_space header) res kept) in
          rw (handle_charge, e, f) (status' ∙ status, body' ∙ body)
    ]
  ]
