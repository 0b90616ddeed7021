-- ===== src/Origination/Charge/Rows.antt =====
-- What a statement on the table of the charges does to the rows, whatever it writes: a property of
-- the rows that it keeps, and a relation between a row and what it becomes.
use misw4501_202614_grupo.Base.{
  ◌≡◌, refl, sym, ap, ◌∙◌, ◌⊎◌, inl, inr, Bool, true, none, some, [], ◌∷◌, arith, Option-cases,
  Bool-cases,
}
use mathlib.Core.Option
use misw4501_202614_grupo.Base.Text.{Str, str_eq, str_eq_iff}
use misw4501_202614_grupo.Base.Dict.{Dict, lookup, lookup-insert, lookup-insert_self}
use misw4501_202614_grupo.Base.Clock.{Time}
use misw4501_202614_grupo.Origination.Charge.{Charge}
use misw4501_202614_grupo.Origination.Charge.Store.{ChargeStore, write, update}
use misw4501_202614_grupo.Origination.Charge.Methods.{
  swept, expire_rows, expire_without_payment_method,
}

-- Every row has the property.
abbrev pub Each : (Str → Charge → Type 0) → ChargeStore → Type 0
Each P s = (j : Str) (c : Charge) → lookup j s.charges ≡ some c → P j c

-- Every row is still there, and what it became is related to what it was.
abbrev pub Moves : (Str → Charge → Charge → Type 0) → ChargeStore → ChargeStore → Type 0
Moves R s s' =
    (j : Str) (c : Charge)
    → lookup j s.charges ≡ some c
    → (c' : Charge) × (lookup j s'.charges ≡ some c') × R j c c'

pub some_inj : {A : Type 0} {x y : A} → some x ≡ some y → x ≡ y
some_inj e = cc

-- The rows after a write.
pub write-row :
    (id j : Str) (c d : Charge) (s : ChargeStore)
    → lookup j (write id c s).charges ≡ some d
    → ((id ≡ j) × (d ≡ c)) ⊎ (lookup j s.charges ≡ some d)
unfolding write
write-row id j c d s e = ground (arith, lookup-insert id j c s.charges, str_eq_iff id j)

pub write-Each :
    (P : Str → Charge → Type 0) (id : Str) (c : Charge) (s : ChargeStore)
    → P id c
    → Each P s
    → Each P (write id c s)
write-Each P id c s p h j d e = elim (write-row id j c d s e) [
  | inl (i, f) ↦ rw (f, sym i) p
  | inr f ↦ h j d f
]

pub write-Moves :
    (R : Str → Charge → Charge → Type 0) (id : Str) (c d : Charge) (s : ChargeStore)
    → ((j : Str) (x : Charge) → R j x x)
    → lookup id s.charges ≡ some c
    → R id c d
    → Moves R s (write id d s)
unfolding write
write-Moves R id c d s r f q j x e = elim (Bool-cases (str_eq id j)) [
  | inl b ↦
      let i = (str_eq_iff id j).0 b in
      (
        d,
        rw (sym i) (lookup-insert_self id d s.charges),
        rw (some_inj (sym e ∙ (ap (λ k. lookup k s.charges) (sym i) ∙ f)), sym i) q,
      )
  | inr b ↦ (x, lookup-insert id j d s.charges ∙ rw b e, r j x)
]

-- A row that was not there.
pub write_new-Moves :
    (R : Str → Charge → Charge → Type 0) (id : Str) (d : Charge) (s : ChargeStore)
    → ((j : Str) (x : Charge) → R j x x)
    → lookup id s.charges ≡ none
    → Moves R s (write id d s)
unfolding write
write_new-Moves R id d s r f j x e = elim (Bool-cases (str_eq id j)) [
  | inl b ↦ absurd (ground (arith, str_eq_iff id j))
  | inr b ↦ (x, lookup-insert id j d s.charges ∙ rw b e, r j x)
]

module _ (id : Str) (test : Charge → Bool) (change : Charge → Charge) (s : ChargeStore) where
  pub update_cases :
      (update id test change s ≡ (s, none))
      ⊎ ((c : Charge) × (lookup id s.charges ≡ some c)
          × (test c ≡ true)
          × (update id test change s ≡ (write id (change c) s, some (change c))))
  unfolding update
  update_cases = elim (Option-cases (lookup id s.charges)) [
    | inl e ↦ inl (rw (update, e) refl)
    | inr (c, e) ↦ elim (Bool-cases (test c)) [
      | inl b ↦ inr (c, e, b, rw (update, e, b) refl)
      | inr b ↦ inl (rw (update, e, b) refl)
    ]
  ]

  pub update-Each :
      (P : Str → Charge → Type 0)
      → ((c : Charge) → lookup id s.charges ≡ some c → test c ≡ true → P id c → P id (change c))
      → Each P s
      → Each P (update id test change s).0
  update-Each P step h = elim update_cases [
    | inl e ↦ rw e h
    | inr (c, e, b, u) ↦ rw u (write-Each P id (change c) s (step c e b (h id c e)) h)
  ]

  pub update-Moves :
      (R : Str → Charge → Charge → Type 0)
      → ((j : Str) (x : Charge) → R j x x)
      → ((c : Charge) → lookup id s.charges ≡ some c → test c ≡ true → R id c (change c))
      → Moves R s (update id test change s).0
  update-Moves R r step = elim update_cases [
    | inl e ↦ rw e λ j c f. (c, f, r j c)
    | inr (c, e, b, u) ↦ rw u (write-Moves R id c (change c) s r e (step c e b))
  ]

-- The sweep writes every row by itself.
lookup-expire_rows :
    (at : Time) (j : Str) (m : Dict Charge)
    → lookup j (expire_rows at m) ≡ Option.map (swept at) (lookup j m)
unfolding lookup expire_rows
lookup-expire_rows at j [] = refl
lookup-expire_rows at j ((i, c) ∷ m) = elim (Bool-cases (str_eq i j)) [
  | inl b ↦ rw b refl
  | inr b ↦ rw b (lookup-expire_rows at j m)
]

module _ (at : Time) (s : ChargeStore) where
  pub expire-Each :
      (P : Str → Charge → Type 0)
      → ((j : Str) (c : Charge) → P j c → P j (swept at c))
      → Each P s
      → Each P (expire_without_payment_method at s).0
  unfolding expire_without_payment_method
  expire-Each P step h j d e = elim (Option-cases (lookup j s.charges)) [
    | inl f ↦ absurd (ground (arith, lookup-expire_rows at j s.charges))
    | inr (c, f) ↦
        let g = lookup-expire_rows at j s.charges ∙ ap (Option.map (swept at)) f in
        rw (some_inj (sym e ∙ g)) (step j c (h j c f))
  ]

  pub expire-Moves :
      (R : Str → Charge → Charge → Type 0)
      → ((j : Str) (c : Charge) → R j c (swept at c))
      → Moves R s (expire_without_payment_method at s).0
  unfolding expire_without_payment_method
  expire-Moves R step j c e =
      (swept at c, lookup-expire_rows at j s.charges ∙ ap (Option.map (swept at)) e, step j c)
