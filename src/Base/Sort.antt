-- ===== src/Base/Sort.antt =====
-- The filters and the sorts of the lists of the program, with what they promise.
use mathlib.Core.List.{Perm, perm_middle, append_assoc}
use mathlib.Core.List.Perm
use misw4501_202614_grupo.Base.{
  ◌≡◌, sym, inl, inr, Bool, true, false, List, [], ◌∷◌, ◌++◌, ◌↔◌, All, map-All, map-All_both,
  Bool-cases, arith, if◌then◌else◌,
}

module _ {A : Type 0} where
  unfoldable pub keep : (A → Bool) → List A → List A
  keep test [] = []
  keep test (x ∷ xs) = let rest = keep test xs in if test x then x ∷ rest else rest

  unfoldable pub insert_in : (A → A → Bool) → A → List A → List A
  insert_in before x [] = x ∷ []
  insert_in before x (y ∷ ys) =
      let rest = insert_in before x ys in if before y x then y ∷ rest else x ∷ y ∷ ys

  -- A stable sort: `before` tells which of two elements comes first, if either has to.
  unfoldable pub sort_in : (A → A → Bool) → List A → List A
  unfolding insert_in
  sort_in before [] = []
  sort_in before (x ∷ xs) = insert_in before x (sort_in before xs)

  -- A list is split by a test: the elements that pass, and the others.
  keep-Perm :
      (test : A → Bool) (xs : List A)
      → (left : List A) × Perm (keep test xs ++ left) xs
        × All (λ x. test x ≡ true) (keep test xs)
        × All (λ x. test x ≡ false) left
  unfolding keep
  keep-Perm test [] = ([], Perm.refl [], tt, tt)
  keep-Perm test (x ∷ xs) =
      let (left, p, kept, rest) = keep-Perm test xs in
      elim (Bool-cases (test x)) [
        | inl e ↦ rw (keep, e) (left, Perm.cons x p, (e, kept), rest)
        | inr e ↦
            rw (keep, e)
              (
                x ∷ left,
                Perm.trans (perm_middle (keep test xs) left) (Perm.cons x p),
                kept,
                (e, rest),
              )
      ]

  insert_in-Perm :
      (before : A → A → Bool) (x : A) (xs : List A) → Perm (insert_in before x xs) (x ∷ xs)
  unfolding insert_in
  insert_in-Perm before x [] = Perm.refl (x ∷ [])
  insert_in-Perm before x (y ∷ ys) = elim (Bool-cases (before y x)) [
    | inl e ↦
        rw (insert_in, e) (Perm.trans (Perm.cons y (insert_in-Perm before x ys)) (Perm.swap x y ys))
    | inr e ↦ rw (insert_in, e) (Perm.refl (x ∷ y ∷ ys))
  ]

  sort_in-Perm : (before : A → A → Bool) (xs : List A) → Perm (sort_in before xs) xs
  unfolding sort_in
  sort_in-Perm before [] = Perm.refl []
  sort_in-Perm before (x ∷ xs) =
      Perm.trans (insert_in-Perm before x (sort_in before xs))
        (Perm.cons x (sort_in-Perm before xs))

  insert_in-All {κ} :
      (before : A → A → Bool) (P : A → Type κ) (x : A) (xs : List A)
      → P x
      → All P xs
      → All P (insert_in before x xs)
  unfolding insert_in
  insert_in-All before P x [] h k = (h, tt)
  insert_in-All before P x (y ∷ ys) h (k, ks) = elim (Bool-cases (before y x)) [
    | inl e ↦ rw (insert_in, e) (k, insert_in-All before P x ys h ks)
    | inr e ↦ rw (insert_in, e) (h, (k, ks))
  ]

  sort_in-All {κ} :
      (before : A → A → Bool) (P : A → Type κ) (xs : List A) → All P xs → All P (sort_in before xs)
  unfolding sort_in
  sort_in-All before P [] h = tt
  sort_in-All before P (x ∷ xs) (h, hs) =
      insert_in-All before P x (sort_in before xs) h (sort_in-All before P xs hs)

  keep-All {κ} : (P : A → Type κ) (test : A → Bool) (xs : List A) → All P xs → All P (keep test xs)
  unfolding keep
  keep-All P test [] h = tt
  keep-All P test (x ∷ xs) (h, hs) = elim (Bool-cases (test x)) [
    | inl e ↦ rw (keep, e) (h, keep-All P test xs hs)
    | inr e ↦ rw (keep, e) (keep-All P test xs hs)
  ]

  -- A relation of each element to all that come after it.
  abbrev pub Ordered {κ} : (A → A → Type κ) → List A → Type κ
  Ordered R [] = Unit
  Ordered R (x ∷ xs) = All (R x) xs × Ordered R xs

  keep-Ordered {κ} :
      (R : A → A → Type κ) (test : A → Bool) (xs : List A) → Ordered R xs → Ordered R (keep test xs)
  unfolding keep
  keep-Ordered R test [] h = tt
  keep-Ordered R test (x ∷ xs) (h, hs) = elim (Bool-cases (test x)) [
    | inl e ↦ rw (keep, e) (keep-All (R x) test xs h, keep-Ordered R test xs hs)
    | inr e ↦ rw (keep, e) (keep-Ordered R test xs hs)
  ]

  -- What is listed of a list, and what is left out of it: every element is in one of them, as often as
  -- in the list; those that are listed have a property and the others do not; and each one that is
  -- listed is related to all that follow it.
  abbrev pub IsListing {κ κ'} :
      (A → A → Type κ) → (A → Type κ') → List A → List A → List A → Type (κ ⊔ κ')
  IsListing R P xs listed left =
      Perm (listed ++ left) xs × All P listed × All (λ x. ¬ P x) left × Ordered R listed

  -- A relation that a sort puts its elements in.
  pub record Sorts {κ} (R : A → A → Type κ) (before : A → A → Bool) : Type κ where
    pub early : (x y : A) → before y x ≡ true → R y x
    pub late : (x y : A) → before y x ≡ false → R x y
    pub trans : (x y z : A) → R x y → R y z → R x z

  module _ {κ} (R : A → A → Type κ) (before : A → A → Bool) (sorts : Sorts R before) where
    insert_in-Ordered : (x : A) (xs : List A) → Ordered R xs → Ordered R (insert_in before x xs)
    unfolding insert_in
    insert_in-Ordered x [] h = (tt, tt)
    insert_in-Ordered x (y ∷ ys) (s, h) = elim (Bool-cases (before y x)) [
      | inl e ↦
          rw (insert_in, e)
            (insert_in-All before (R y) x ys (sorts.early x y e) s, insert_in-Ordered x ys h)
      | inr e ↦
          let r = sorts.late x y e in
          rw (insert_in, e) ((r, map-All (λ z q. sorts.trans x y z r q) ys s), (s, h))
    ]

    sort_in-Ordered : (xs : List A) → Ordered R (sort_in before xs)
    unfolding sort_in
    sort_in-Ordered [] = tt
    sort_in-Ordered (x ∷ xs) = insert_in-Ordered x (sort_in before xs) (sort_in-Ordered xs)

    pub sort_in-IsListing {κ'} :
        (P : A → Type κ') (test : A → Bool)
        → ((x : A) → (test x ≡ true) ↔ P x)
        → (xs : List A) → (left : List A) × IsListing R P xs (sort_in before (keep test xs)) left
    sort_in-IsListing P test meets xs =
        let kept = keep test xs in
        let (left, p, passed, failed) = keep-Perm test xs in
        (
          left,
          (
            Perm.trans (Perm.append_right left (sort_in-Perm before kept)) p,
            sort_in-All before P kept (map-All (λ x e. (meets x).0 e) kept passed),
            map-All (λ x e h. absurd (ground (arith, (meets x).1 h))) left failed,
            sort_in-Ordered kept,
          ),
        )

  append-All {κ} : (P : A → Type κ) (xs ys : List A) → All P xs → All P ys → All P (xs ++ ys)
  append-All P [] ys h k = k
  append-All P (x ∷ xs) ys (h, hs) k = (h, append-All P xs ys hs k)

  -- What is listed of a listing.
  pub keep-IsListing {κ κ' κ''} :
      (R : A → A → Type κ) (P : A → Type κ') (Q : A → Type κ'') (test : A → Bool)
      → ((x : A) → (test x ≡ true) ↔ Q x)
      → (xs listed left : List A) → IsListing R P xs listed left
      → (rest : List A) × IsListing R (λ x. P x × Q x) xs (keep test listed) rest
  keep-IsListing R P Q test meets xs listed left (p, h, k, o) =
      let (rest, p', passed, failed) = keep-Perm test listed in
      (
        rest ++ left,
        (
          rw (sym (append_assoc (keep test listed) rest left))
              (Perm.trans (Perm.append_right left p') p),
          map-All_both (λ x a e. (a, (meets x).0 e)) (keep test listed) (keep-All P test listed h)
              passed,
          append-All (λ x. ¬ (P x × Q x)) rest left
              (map-All (λ x e both. absurd (ground (arith, (meets x).1 (both.1)))) rest failed)
              (map-All (λ x no both. no (both.0)) left k),
          keep-Ordered R test listed o,
        ),
      )
