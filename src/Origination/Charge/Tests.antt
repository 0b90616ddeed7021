-- ===== src/Origination/Charge/Tests.antt =====
-- The charges on concrete rows.
use misw4501_202614_grupo.Base.{◌≡◌, refl, ◌↔◌, true, false, ok, err, List, map, take, arith}
use misw4501_202614_grupo.Base.Text.{lit, str_eq}
use misw4501_202614_grupo.Base.Dict.{lookup}
use misw4501_202614_grupo.Idempotency.{Status}
use misw4501_202614_grupo.Origination.Charge.{
  Charge, takes_payment_method, with_payment_method, base_key,
}
use misw4501_202614_grupo.Origination.Charge.Store.{charge_not_payable, write, key_taken, resume}
use misw4501_202614_grupo.Origination.Charge.Methods.{attach_payment_method}
use misw4501_202614_grupo.Origination.Charge.Queue.{Row, list_due}
use misw4501_202614_grupo.Origination.Charge.Payable.{
  Agrees, attach-with_payment_method, resume-attach_payment_method,
}
use misw4501_202614_grupo.Origination.Charge.Listed.{IsDue, IsEarlier, list_due-IsListing}
use misw4501_202614_grupo.Base.Sort.{IsListing}
use misw4501_202614_grupo.Origination.Charge.Samples.{
  digit, visa, other_card, waiting, due_charge, expired, one, resumption,
}

first_key : base_key (lit "7") ≡ lit "cobro-7"
unfolding base_key
first_key = refl

attach-with_payment_method_example :
    let s = one waiting in
    (((attach_payment_method digit (lit "7") visa 5 s).1 ≡ err charge_not_payable)
      ↔ (takes_payment_method waiting ≡ false))
    × (takes_payment_method waiting ≡ true
        → (row : Charge) × (attach_payment_method digit (lit "7") visa 5 s
            ≡ (write (lit "7") row s, ok row))
          × Agrees row (with_payment_method digit visa 5 waiting))
unfolding lookup str_eq key_taken
attach-with_payment_method_example =
    attach-with_payment_method digit (lit "7") visa 5 (one waiting) waiting refl refl refl
      (λ e. absurd (ground arith))

resume-attach_payment_method_example :
    (c : Charge) × ((attach_payment_method digit
        (lit "7")
        other_card
        10
        (resume (lit "7") resumption (one expired)).0).1
      ≡ ok c)
    × (c.idempotency_key ≡ expired.idempotency_key)
    × (c.payment_method.token ≡ other_card.token)
    × (c.status ≡ Status.pending)
    × (c.next_attempt_at ≡ 10)
unfolding lookup str_eq key_taken
resume-attach_payment_method_example =
    resume-attach_payment_method digit (lit "7") resumption other_card 10 (one expired) expired refl
      refl refl

list_due-IsListing_example :
    (due_rows : List Row) × (left : List Row) × (list_due 5 50 (one due_charge)
      ≡ map (λ r. r.0) (take 50 due_rows))
    × IsListing IsEarlier (λ r. IsDue 5 r.1) (one due_charge).charges due_rows left
list_due-IsListing_example = list_due-IsListing 5 50 (one due_charge)
