-- ===== src/Payments/Gateway/Once.antt =====
-- What the gateway does with a key, however many requests come with it.
use misw4501_202614_grupo.Base.{
  ℕ, ◌+◌, ◌≤◌, ◌≡◌, refl, ◌⊎◌, ◌↔◌, inl, inr, true, Option, none, some, List, [], ◌∷◌, arith, ◌∙◌,
  Option-cases, Bool-cases,
}
use misw4501_202614_grupo.Base.Text.{Str, str_eq_iff, trim_space}
use misw4501_202614_grupo.Base.Dict.{Dict, lookup, lookup-insert}
use misw4501_202614_grupo.Base.Clock.{Time}
use misw4501_202614_grupo.Payments.Cards.{TokenInfo, only_digits, bad_card}
use misw4501_202614_grupo.Payments.Gateway.{
  bad_key, valid_charge_request, valid_payout, GatewayCharge, GatewayPayout, ChargeResult,
  PayoutResult, Gateway, new_gateway, count_of, counted, decide, process_new, process, pay_new,
  process_payout, tokenise, handle_charge, handle_payout, declined_result, made_result,
  charge_counted, made_payout, process_seen, pay_seen,
}

-- A request to the gateway, at a time.
pub data Request : Type 0 where
  ask_charge : Str → GatewayCharge → Time → Request
  ask_payout : Str → GatewayPayout → Time → Request
  ask_token : Str → Request

-- A key that was charged has the answer of the charge, and was charged once.
abbrev pub KeptCharge : Option ChargeResult → ℕ → Type 0
KeptCharge none n = n ≡ 0
KeptCharge (some res) n = ((res.status ≡ 201) × (n ≡ 1)) ⊎ ((res.status ≡ 402) × (n ≡ 0))

abbrev pub KeptPayout : Option PayoutResult → ℕ → Type 0
KeptPayout none n = n ≡ 0
KeptPayout (some res) n = n ≡ 1

pub record Honest (g : Gateway) : Type 0 where
  pub honours : g.supports_idempotency ≡ true
  pub charges : (k : Str) → KeptCharge (lookup k g.by_key) (count_of k g.real_charges)
  pub payouts : (k : Str) → KeptPayout (lookup k g.payout_by_key) (count_of k g.real_payouts)

-- The status of the answer that a key keeps.
abbrev pub status_of : Option ChargeResult → Option ℕ
status_of none = none
status_of (some res) = some res.status

kept_once :
    (o : Option ChargeResult) (q : Option PayoutResult) {m n : ℕ}
    → KeptCharge o m
    → KeptPayout q n
    → (m ≤ 1) × (n ≤ 1) × ((m ≡ 1) ↔ (status_of o ≡ some 201))
kept_once o q h j = ground arith

abbrev pub payout_counted : Str → Gateway → Gateway
payout_counted key g = record g { payout_requests = counted key g.payout_requests }

module _ (itoa : ℕ → Str) where
  unfoldable pub serve : Gateway → Request → Gateway
  unfolding handle_charge handle_payout tokenise
  serve g (ask_charge header r now) = (handle_charge itoa header r now g).0
  serve g (ask_payout header r now) = (handle_payout itoa header r now g).0
  serve g (ask_token sent) = (tokenise itoa sent g).0

  unfoldable pub serve_all : Gateway → List Request → Gateway
  unfolding serve
  serve_all g [] = g
  serve_all g (r ∷ rs) = serve_all (serve g r) rs

  -- A handler refuses the request, or hands it on.
  pub charge_either :
      (P : Gateway → Type 0) (header : Str) (r : GatewayCharge) (now : Time) (g : Gateway)
      → P g
      → P (process itoa (trim_space header) r now g).0
      → P (handle_charge itoa header r now g).0
  unfolding handle_charge
  charge_either P header r now g h j = elim (Bool-cases (bad_key (trim_space header))) [
    | inl e ↦ rw (handle_charge, e) h
    | inr e ↦ elim (Bool-cases (valid_charge_request r)) [
      | inl f ↦ rw (handle_charge, e, f) j
      | inr f ↦ rw (handle_charge, e, f) h
    ]
  ]

  pub payout_either :
      (P : Gateway → Type 0) (header : Str) (r : GatewayPayout) (now : Time) (g : Gateway)
      → P g
      → P (process_payout itoa (trim_space header) r now g).0
      → P (handle_payout itoa header r now g).0
  unfolding handle_payout
  payout_either P header r now g h j = elim (Bool-cases (bad_key (trim_space header))) [
    | inl e ↦ rw (handle_payout, e) h
    | inr e ↦ elim (Bool-cases (valid_payout r)) [
      | inl f ↦ rw (handle_payout, e, f) j
      | inr f ↦ rw (handle_payout, e, f) h
    ]
  ]

  -- A token changes the tokens alone.
  pub token_either :
      (P : Gateway → Type 0) (sent : Str) (g : Gateway)
      → P g
      → ((tokens : Dict TokenInfo)
          → P (record g { token_seq = g.token_seq + 1; by_token = tokens }))
      → P (tokenise itoa sent g).0
  unfolding tokenise
  token_either P sent g h j = elim (Bool-cases (bad_card (only_digits sent))) [
    | inl e ↦ rw (tokenise, e) h
    | inr e ↦ rw (tokenise, e) (j _)
  ]

  process_new-charges :
      (key k : Str) (r : GatewayCharge) (now : Time) (g : Gateway)
      → lookup key g.by_key ≡ none
      → KeptCharge (lookup key g.by_key) (count_of key g.real_charges)
      → KeptCharge (lookup k g.by_key) (count_of k g.real_charges)
      → let g' = (process_new itoa key r now g).0 in
        KeptCharge (lookup k g'.by_key) (count_of k g'.real_charges)
  unfolding process_new
  process_new-charges key k r now g e h j = elim (Option-cases (decide r g)) [
    | inl d ↦
        rw (process_new, d)
          (ground (
            arith,
            lookup-insert key k (made_result itoa key r now g) g.by_key,
            lookup-insert key k (count_of key g.real_charges + 1) g.real_charges,
            str_eq_iff key k,
          ))
    | inr (reason, d) ↦
        rw (process_new, d)
          (ground (
            arith,
            lookup-insert key k (declined_result itoa r reason g) g.by_key,
            str_eq_iff key k,
          ))
  ]

  -- A new key charges nobody else, and no payout.
  process_new-rest :
      (key : Str) (r : GatewayCharge) (now : Time) (g : Gateway)
      → let g' = (process_new itoa key r now g).0 in
        (g'.supports_idempotency ≡ g.supports_idempotency)
        × (g'.payout_by_key ≡ g.payout_by_key)
        × (g'.real_payouts ≡ g.real_payouts)
  unfolding process_new
  process_new-rest key r now g = elim (Option-cases (decide r g)) [
    | inl d ↦ rw (process_new, d) (refl, refl, refl)
    | inr (reason, d) ↦ rw (process_new, d) (refl, refl, refl)
  ]

  -- A key that was seen changes nothing.
  pub seen-same :
      (key : Str) (r : GatewayCharge) (now : Time) (res : ChargeResult) (g : Gateway)
      → g.supports_idempotency ≡ true
      → (process_seen itoa key r now (some res) g).0 ≡ g
  seen-same key r now res g h = ground arith

  pub pay_seen-same :
      (key : Str) (r : GatewayPayout) (now : Time) (res : PayoutResult) (g : Gateway)
      → g.supports_idempotency ≡ true
      → (pay_seen itoa key r now (some res) g).0 ≡ g
  pay_seen-same key r now res g h = ground arith

  process-Honest :
      (key : Str) (r : GatewayCharge) (now : Time) (g : Gateway)
      → Honest g
      → Honest (process itoa key r now g).0
  unfolding process
  process-Honest key r now g h = elim (Option-cases (lookup key g.by_key)) [
    | inl e ↦
        let g' = charge_counted key g in
        let rest = process_new-rest key r now g' in
        rw (process, e)
          (record {
            honours = rest.0 ∙ h.honours;
            charges = λ k. process_new-charges key k r now g' e (h.charges key) (h.charges k);
            payouts = λ k. rw (rest.1, rest.2) (h.payouts k);
          })
    | inr (res, e) ↦
        rw (process, e, seen-same key r now res (charge_counted key g) h.honours)
          (record { honours = h.honours; charges = h.charges; payouts = h.payouts })
  ]

  pay_new-payouts :
      (key k : Str) (r : GatewayPayout) (now : Time) (g : Gateway)
      → lookup key g.payout_by_key ≡ none
      → KeptPayout (lookup key g.payout_by_key) (count_of key g.real_payouts)
      → KeptPayout (lookup k g.payout_by_key) (count_of k g.real_payouts)
      → let g' = (pay_new itoa key r now g).0 in
        KeptPayout (lookup k g'.payout_by_key) (count_of k g'.real_payouts)
  unfolding pay_new
  pay_new-payouts key k r now g e h j = ground (
    arith,
    lookup-insert key k (record { request = r; body = made_payout itoa key r now g })
        g.payout_by_key,
    lookup-insert key k (count_of key g.real_payouts + 1) g.real_payouts,
    str_eq_iff key k,
  )

  pub pay_new-rest :
      (key : Str) (r : GatewayPayout) (now : Time) (g : Gateway)
      → let g' = (pay_new itoa key r now g).0 in
        (g'.supports_idempotency ≡ g.supports_idempotency)
        × (g'.by_key ≡ g.by_key)
        × (g'.real_charges ≡ g.real_charges)
  unfolding pay_new
  pay_new-rest key r now g = ground arith

  process_payout-Honest :
      (key : Str) (r : GatewayPayout) (now : Time) (g : Gateway)
      → Honest g
      → Honest (process_payout itoa key r now g).0
  unfolding process_payout
  process_payout-Honest key r now g h =
      let g' = payout_counted key g in
      elim (Option-cases (lookup key g.payout_by_key)) [
        | inl e ↦
            let rest = pay_new-rest key r now g' in
            rw (process_payout, e)
              (record {
                honours = rest.0 ∙ h.honours;
                charges = λ k. rw (rest.1, rest.2) (h.charges k);
                payouts = λ k. pay_new-payouts key k r now g' e (h.payouts key) (h.payouts k);
              })
        | inr (res, e) ↦
            rw (process_payout, e, pay_seen-same key r now res g' h.honours)
              (record { honours = h.honours; charges = h.charges; payouts = h.payouts })
      ]

  tokenise-Honest : (sent : Str) (g : Gateway) → Honest g → Honest (tokenise itoa sent g).0
  unfolding tokenise
  tokenise-Honest sent g h =
      token_either Honest sent g h
        λ f. record { honours = h.honours; charges = h.charges; payouts = h.payouts }

  pub serve-Honest : (g : Gateway) (r : Request) → Honest g → Honest (serve g r)
  unfolding serve handle_charge handle_payout
  serve-Honest g (ask_charge header r now) h =
      charge_either Honest header r now g h (process-Honest (trim_space header) r now g h)
  serve-Honest g (ask_payout header r now) h =
      payout_either Honest header r now g h (process_payout-Honest (trim_space header) r now g h)
  serve-Honest g (ask_token sent) h = tokenise-Honest sent g h

  pub serve_all-Honest : (g : Gateway) (rs : List Request) → Honest g → Honest (serve_all g rs)
  unfolding serve_all
  serve_all-Honest g [] h = h
  serve_all-Honest g (r ∷ rs) h = serve_all-Honest (serve g r) rs (serve-Honest g r h)

new_gateway-Honest : Honest (new_gateway true)
unfolding lookup
new_gateway-Honest = record { honours = refl; charges = λ k. refl; payouts = λ k. refl }

-- However many requests for charges, payouts and tokens a gateway that honours the keys served, in
-- whatever order: every key is charged at most once and paid at most once, and a key is charged
-- exactly if the answer that its retries get is the one of a charge (201).
pub charged_once :
    (itoa : ℕ → Str) (rs : List Request) (k : Str)
    → let g = serve_all itoa (new_gateway true) rs in
      (count_of k g.real_charges ≤ 1)
      × (count_of k g.real_payouts ≤ 1)
      × ((count_of k g.real_charges ≡ 1) ↔ (status_of (lookup k g.by_key) ≡ some 201))
charged_once itoa rs k =
    let h = serve_all-Honest itoa (new_gateway true) rs new_gateway-Honest in
    kept_once (lookup k (serve_all itoa (new_gateway true) rs).by_key)
      (lookup k (serve_all itoa (new_gateway true) rs).payout_by_key) (h.charges k) (h.payouts k)
