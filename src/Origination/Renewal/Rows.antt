-- ===== src/Origination/Renewal/Rows.antt =====
-- What each statement on the renewals does to the rows of the periods.
use misw4501_202614_grupo.Base.{
  ◌≡◌, refl, sym, ap, ◌∙◌, inl, inr, Bool, true, false, not, ◌&&◌, ◌||◌, some, List, [], ◌∷◌, ◌++◌,
  arith, Option-cases, Bool-cases,
}
use misw4501_202614_grupo.Base.Text.{Str, str_eq, is_empty}
use misw4501_202614_grupo.Base.Clock.{Time}
use misw4501_202614_grupo.Base.Dict.{lookup}
use misw4501_202614_grupo.Origination.Charge.Store.{get, is_confirmed}
use misw4501_202614_grupo.Origination.Renewal.{Renewal, payment_failed}
use misw4501_202614_grupo.Origination.Renewal.Store.{
  Portfolio, is_accepted, is_period, find_period, has_id, create_renewal, close_rows, mark_renewed,
  mark_not_renewed, tell_rows, mark_notified, told, renewed_row, not_renewed_row,
}
use misw4501_202614_grupo.Origination.Renewal.Service.{
  changed, given_up, settled_renewed, settled_failed, settle,
}

-- The same period, and the same outcome once it has one.
pub record Follows (r q : Renewal) : Type 0 where
  pub id_eq : q.id ≡ r.id
  pub policy_eq : q.policy_id ≡ r.policy_id
  pub period_eq : q.period_end ≡ r.period_end
  pub outcome_eq :
      is_accepted r.status ≡ false
      → (q.status ≡ r.status) × (q.reason ≡ r.reason) × (q.new_policy_id ≡ r.new_policy_id)

pub Follows-refl : (r : Renewal) → Follows r r
Follows-refl r = record {
  id_eq = refl;
  policy_eq = refl;
  period_eq = refl;
  outcome_eq = λ _. (refl, refl, refl);
}

pub Follows-trans : (r q u : Renewal) → Follows r q → Follows q u → Follows r u
Follows-trans r q u f g = record {
  id_eq = g.id_eq ∙ f.id_eq;
  policy_eq = g.policy_eq ∙ f.policy_eq;
  period_eq = g.period_eq ∙ f.period_eq;
  outcome_eq = λ closed.
      let (st, why, new) = f.outcome_eq closed in
      let (st', why', new') = g.outcome_eq (ap is_accepted st ∙ closed) in
      (st' ∙ st, why' ∙ why, new' ∙ new);
}

-- Every period that had a row has one that follows it.
abbrev pub Keeps : List Renewal → List Renewal → Type 0
Keeps rows rows' =
    (id : Str) (at : Time) (r : Renewal)
    → find_period id at rows ≡ some r
    → (q : Renewal) × (find_period id at rows' ≡ some q) × Follows r q

pub Keeps-refl : (rows : List Renewal) → Keeps rows rows
Keeps-refl rows id at r e = (r, e, Follows-refl r)

pub Keeps-trans : (xs ys zs : List Renewal) → Keeps xs ys → Keeps ys zs → Keeps xs zs
Keeps-trans xs ys zs h k id at r e =
    let (q, e', f) = h id at r e in
    let (u, e'', g) = k id at q e' in (u, e'', Follows-trans r q u f g)

some_inj : {x y : Renewal} → some x ≡ some y → x ≡ y
some_inj e = cc

-- A row that is replaced by one that follows it, before rows that are kept.
cons-Keeps :
    (r q : Renewal) (rows rows' : List Renewal)
    → Follows r q
    → Keeps rows rows'
    → Keeps (r ∷ rows) (q ∷ rows')
unfolding find_period
cons-Keeps r q rows rows' f h id at u e = elim (Bool-cases (is_period id at r)) [
  | inl b ↦
      let b' : is_period id at q ≡ true = rw (f.policy_eq, f.period_eq) b in
      (q, rw b' refl, rw (sym (some_inj (rw b at e))) f)
  | inr b ↦
      let b' : is_period id at q ≡ false = rw (f.policy_eq, f.period_eq) b in
      let (v, e', g) = h id at u (rw b at e) in (v, rw b' e', g)
]

close_rows-Keeps :
    (id : Str) (change : Renewal → Renewal) (rows : List Renewal)
    → ((r : Renewal) → is_accepted r.status ≡ true → Follows r (change r))
    → Keeps rows (close_rows id change rows).0
unfolding close_rows
close_rows-Keeps id change [] step = Keeps-refl []
close_rows-Keeps id change (r ∷ rows) step =
    let rest = close_rows-Keeps id change rows step in
    elim (Bool-cases (str_eq r.id id && is_accepted r.status)) [
      | inl b ↦
          rw (close_rows, b)
            (cons-Keeps r (change r) rows (close_rows id change rows).0 (step r (ground arith))
              rest)
      | inr b ↦
          rw (close_rows, b)
            (cons-Keeps r r rows (close_rows id change rows).0 (Follows-refl r) rest)
    ]

accepted-Follows :
    (r q : Renewal)
    → q.id ≡ r.id
    → q.policy_id ≡ r.policy_id
    → q.period_end ≡ r.period_end
    → is_accepted r.status ≡ true
    → Follows r q
accepted-Follows r q i p e a = record {
  id_eq = i;
  policy_eq = p;
  period_eq = e;
  outcome_eq = λ closed. absurd (ground arith);
}

pub mark_renewed-Keeps :
    (id policy_id : Str) (at : Time) (p : Portfolio)
    → Keeps p.renewals (mark_renewed id policy_id at p).0.renewals
unfolding mark_renewed
mark_renewed-Keeps id policy_id at p =
    close_rows-Keeps id (renewed_row policy_id at) p.renewals
      (λ r a. accepted-Follows r (renewed_row policy_id at r) refl refl refl a)

pub mark_not_renewed-Keeps :
    (id : Str) (at : Time) (p : Portfolio)
    → Keeps p.renewals (mark_not_renewed id payment_failed at p).0.renewals
unfolding mark_not_renewed
mark_not_renewed-Keeps id at p =
    close_rows-Keeps id (not_renewed_row payment_failed at) p.renewals
      (λ r a. accepted-Follows r (not_renewed_row payment_failed at r) refl refl refl a)

told-Follows : (at : Time) (failed : Bool) (r : Renewal) → Follows r (told at failed r)
told-Follows at true r = record {
  id_eq = refl;
  policy_eq = refl;
  period_eq = refl;
  outcome_eq = λ _. (refl, refl, refl);
}
told-Follows at false r = record {
  id_eq = refl;
  policy_eq = refl;
  period_eq = refl;
  outcome_eq = λ _. (refl, refl, refl);
}

tell_rows-Keeps :
    (id : Str) (at : Time) (failed : Bool) (rows : List Renewal)
    → Keeps rows (tell_rows id at failed rows)
unfolding tell_rows
tell_rows-Keeps id at failed [] = Keeps-refl []
tell_rows-Keeps id at failed (r ∷ rows) = elim (Bool-cases (str_eq r.id id)) [
  | inl b ↦
      rw (tell_rows, b)
        (cons-Keeps r (told at failed r) rows (tell_rows id at failed rows)
          (told-Follows at failed r) (tell_rows-Keeps id at failed rows))
  | inr b ↦
      rw (tell_rows, b)
        (cons-Keeps r r rows (tell_rows id at failed rows) (Follows-refl r)
          (tell_rows-Keeps id at failed rows))
]

pub mark_notified-Keeps :
    (id : Str) (at : Time) (failed : Bool) (p : Portfolio)
    → Keeps p.renewals (mark_notified id at failed p).renewals
unfolding mark_notified
mark_notified-Keeps id at failed p = tell_rows-Keeps id at failed p.renewals

append-Keeps : (rows more : List Renewal) → Keeps rows (rows ++ more)
unfolding find_period
append-Keeps [] more id at r e = absurd (ground arith)
append-Keeps (q ∷ rows) more id at r e =
    cons-Keeps q q rows (rows ++ more) (Follows-refl q) (append-Keeps rows more) id at r e

pub create_renewal-Keeps :
    (r : Renewal) (p : Portfolio) → Keeps p.renewals (create_renewal r p).0.renewals
unfolding create_renewal
create_renewal-Keeps r p = elim (Option-cases (find_period r.policy_id r.period_end p.renewals)) [
  | inr (q, e) ↦ rw (create_renewal, e) (Keeps-refl p.renewals)
  | inl e ↦ elim (Bool-cases (has_id r.id p.renewals)) [
    | inl b ↦ rw (create_renewal, e, b) (Keeps-refl p.renewals)
    | inr b ↦ rw (create_renewal, e, b) (append-Keeps p.renewals (r ∷ []))
  ]
]

changed-portfolio : (r q : Renewal) (z : Portfolio × Bool) → (changed r q z).0 ≡ z.0
changed-portfolio r q (p, true) = refl
changed-portfolio r q (p, false) = refl

pub settle-Keeps :
    (r : Renewal) (now : Time) (p : Portfolio) → Keeps p.renewals (settle r now p).0.renewals
unfolding settle get
settle-Keeps r now p = elim (Bool-cases (not (is_accepted r.status) || is_empty r.charge_id)) [
  | inl b ↦ rw (settle, b) (Keeps-refl p.renewals)
  | inr b ↦ elim (Option-cases (lookup r.charge_id p.billing.charges)) [
    | inl e ↦ rw (settle, b, get, e) (Keeps-refl p.renewals)
    | inr (c, e) ↦ elim (Bool-cases (is_confirmed c.status)) [
      | inl d ↦
          rw
            (
              settle,
              b,
              get,
              e,
              d,
              changed-portfolio r (settled_renewed c.activation.policy_id now r)
                  (mark_renewed r.id c.activation.policy_id now p),
            )
            (mark_renewed-Keeps r.id c.activation.policy_id now p)
      | inr d ↦ elim (Bool-cases (given_up now r c)) [
        | inl f ↦
            rw
              (
                settle,
                b,
                get,
                e,
                d,
                f,
                changed-portfolio r (settled_failed now r)
                    (mark_not_renewed r.id payment_failed now p),
              )
              (mark_not_renewed-Keeps r.id now p)
        | inr f ↦ rw (settle, b, get, e, d, f) (Keeps-refl p.renewals)
      ]
    ]
  ]
]
