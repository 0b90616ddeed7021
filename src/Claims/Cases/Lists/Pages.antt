-- ===== src/Claims/Cases/Lists/Pages.antt =====
-- What a page holds, and its order.
use misw4501_202614_grupo.Base.{
  ℕ, zero, suc, ◌≤◌, ◌≡◌, refl, inl, inr, true, false, Option, List, [], ◌∷◌, take, length,
  length-take_le, All, arith, Bool-cases,
}
use misw4501_202614_grupo.Base.Int.{pos}
use misw4501_202614_grupo.Base.Text.{Str, str_ltb}
use misw4501_202614_grupo.Base.Dict.{Dict}
use misw4501_202614_grupo.Claims.Case.{Status, ClaimRecord}
use misw4501_202614_grupo.Claims.Cases.{CaseStore}
use misw4501_202614_grupo.Claims.Cases.Lists.{
  ClaimCursor, ClaimFilter, older_than, newer_than, cursor_of, keep, insert_newest, sort_newest,
  insert_oldest, sort_oldest, owned, list_by_owner, queued, list_by_status,
}

str_ltb-asym : (a b : Str) → str_ltb a b ≡ true → str_ltb b a ≡ false
unfolding str_ltb
str_ltb-asym [] [] h = ground arith
str_ltb-asym [] (y ∷ b) h = refl
str_ltb-asym (x ∷ a) [] h = absurd (ground arith)
str_ltb-asym (x ∷ a) (y ∷ b) h = ground (arith, str_ltb-asym a b)

older_than-asym :
    (a b : ClaimRecord) → older_than a (cursor_of b) ≡ true → older_than b (cursor_of a) ≡ false
unfolding older_than
older_than-asym a b h = ground (arith, str_ltb-asym a.id b.id)

-- Each claim of a list is followed by one that is not newer.
abbrev pub NewestFirst : List ClaimRecord → Type 0
NewestFirst [] = Unit
NewestFirst (c ∷ []) = Unit
NewestFirst (c ∷ d ∷ ds) = (older_than c (cursor_of d) ≡ false) × NewestFirst (d ∷ ds)

-- Each claim of a list is followed by one that is not older.
abbrev pub OldestFirst : List ClaimRecord → Type 0
OldestFirst [] = Unit
OldestFirst (c ∷ []) = Unit
OldestFirst (c ∷ d ∷ ds) = (older_than d (cursor_of c) ≡ false) × OldestFirst (d ∷ ds)

insert_newest-NewestFirst :
    (c : ClaimRecord) (ds : List ClaimRecord) → NewestFirst ds → NewestFirst (insert_newest c ds)
unfolding insert_newest
insert_newest-NewestFirst c [] h = tt
insert_newest-NewestFirst c (d ∷ []) h = ground (arith, older_than-asym d c)
insert_newest-NewestFirst c (d ∷ e ∷ ds) (p, h) =
    ground (arith, older_than-asym d c, insert_newest-NewestFirst c (e ∷ ds) h)

insert_oldest-OldestFirst :
    (c : ClaimRecord) (ds : List ClaimRecord) → OldestFirst ds → OldestFirst (insert_oldest c ds)
unfolding insert_oldest
insert_oldest-OldestFirst c [] h = tt
insert_oldest-OldestFirst c (d ∷ []) h = ground (arith, older_than-asym d c)
insert_oldest-OldestFirst c (d ∷ e ∷ ds) (p, h) =
    ground (arith, older_than-asym d c, insert_oldest-OldestFirst c (e ∷ ds) h)

sort_newest-NewestFirst : (cs : List ClaimRecord) → NewestFirst (sort_newest cs)
unfolding sort_newest
sort_newest-NewestFirst [] = tt
sort_newest-NewestFirst (c ∷ cs) =
    insert_newest-NewestFirst c (sort_newest cs) (sort_newest-NewestFirst cs)

sort_oldest-OldestFirst : (cs : List ClaimRecord) → OldestFirst (sort_oldest cs)
unfolding sort_oldest
sort_oldest-OldestFirst [] = tt
sort_oldest-OldestFirst (c ∷ cs) =
    insert_oldest-OldestFirst c (sort_oldest cs) (sort_oldest-OldestFirst cs)

take-NewestFirst : (n : ℕ) (cs : List ClaimRecord) → NewestFirst cs → NewestFirst (take n cs)
take-NewestFirst zero cs h = tt
take-NewestFirst (suc n) [] h = tt
take-NewestFirst (suc zero) (c ∷ []) h = tt
take-NewestFirst (suc (suc n)) (c ∷ []) h = tt
take-NewestFirst (suc zero) (c ∷ d ∷ ds) h = tt
take-NewestFirst (suc (suc n)) (c ∷ d ∷ ds) (p, h) = (p, take-NewestFirst (suc n) (d ∷ ds) h)

take-OldestFirst : (n : ℕ) (cs : List ClaimRecord) → OldestFirst cs → OldestFirst (take n cs)
take-OldestFirst zero cs h = tt
take-OldestFirst (suc n) [] h = tt
take-OldestFirst (suc zero) (c ∷ []) h = tt
take-OldestFirst (suc (suc n)) (c ∷ []) h = tt
take-OldestFirst (suc zero) (c ∷ d ∷ ds) h = tt
take-OldestFirst (suc (suc n)) (c ∷ d ∷ ds) (p, h) = (p, take-OldestFirst (suc n) (d ∷ ds) h)

-- What is true of every claim that matches is true of a page.
module _ (P : ClaimRecord → Type 0) where
  insert_newest-All :
      (c : ClaimRecord) (ds : List ClaimRecord) → P c → All P ds → All P (insert_newest c ds)
  unfolding insert_newest
  insert_newest-All c [] p h = (p, tt)
  insert_newest-All c (d ∷ ds) p (q, h) = elim (Bool-cases (older_than d (cursor_of c))) [
    | inl e ↦ rw (insert_newest, e) (p, (q, h))
    | inr e ↦ rw (insert_newest, e) (q, insert_newest-All c ds p h)
  ]

  insert_oldest-All :
      (c : ClaimRecord) (ds : List ClaimRecord) → P c → All P ds → All P (insert_oldest c ds)
  unfolding insert_oldest
  insert_oldest-All c [] p h = (p, tt)
  insert_oldest-All c (d ∷ ds) p (q, h) = elim (Bool-cases (older_than d (cursor_of c))) [
    | inl e ↦ rw (insert_oldest, e) (q, insert_oldest-All c ds p h)
    | inr e ↦ rw (insert_oldest, e) (p, (q, h))
  ]

  sort_newest-All : (cs : List ClaimRecord) → All P cs → All P (sort_newest cs)
  unfolding sort_newest
  sort_newest-All [] h = tt
  sort_newest-All (c ∷ cs) (p, h) = insert_newest-All c (sort_newest cs) p (sort_newest-All cs h)

  sort_oldest-All : (cs : List ClaimRecord) → All P cs → All P (sort_oldest cs)
  unfolding sort_oldest
  sort_oldest-All [] h = tt
  sort_oldest-All (c ∷ cs) (p, h) = insert_oldest-All c (sort_oldest cs) p (sort_oldest-All cs h)

  take-All : (n : ℕ) (cs : List ClaimRecord) → All P cs → All P (take n cs)
  take-All zero cs h = tt
  take-All (suc n) [] h = tt
  take-All (suc n) (c ∷ cs) (p, h) = (p, take-All n cs h)

keep-owned :
    (subject : Str) (f : ClaimFilter) (after : Option ClaimCursor) (cs : Dict ClaimRecord)
    → All (λ c. owned subject f after c ≡ true) (keep (owned subject f after) cs)
unfolding keep owned older_than
keep-owned subject f after [] = tt
keep-owned subject f after ((k, c) ∷ cs) = ground (arith, keep-owned subject f after cs)

keep-queued :
    (statuses : List Status) (after : Option ClaimCursor) (cs : Dict ClaimRecord)
    → All (λ c. queued statuses after c ≡ true) (keep (queued statuses after) cs)
unfolding keep queued newer_than
keep-queued statuses after [] = tt
keep-queued statuses after ((k, c) ∷ cs) = ground (arith, keep-queued statuses after cs)

-- A page of the claims of an insured has at most as many as its limit, all of them match the owner,
-- the filter and the cursor, and they come newest first.
list_by_owner_lem :
    (subject : Str) (f : ClaimFilter) (after : Option ClaimCursor) (limit : ℕ) (s : CaseStore)
    → let page = list_by_owner subject f after limit s in
      (length page ≤ limit) × All (λ c. owned subject f after c ≡ true) page × NewestFirst page
unfolding list_by_owner
list_by_owner_lem subject f after limit s =
    let found = keep (owned subject f after) s.by_id in
    (
      length-take_le limit (sort_newest found),
      take-All _ limit (sort_newest found)
          (sort_newest-All _ found (keep-owned subject f after s.by_id)),
      take-NewestFirst limit (sort_newest found) (sort_newest-NewestFirst found),
    )

-- A page of the queue has at most as many claims as its limit, all of them in one of the statuses and
-- past the cursor, and they come oldest first.
list_by_status_lem :
    (statuses : List Status) (after : Option ClaimCursor) (limit : ℕ) (s : CaseStore)
    → let page = list_by_status statuses after (pos limit) s in
      (length page ≤ limit) × All (λ c. queued statuses after c ≡ true) page × OldestFirst page
unfolding list_by_status
list_by_status_lem statuses after limit s =
    let found = keep (queued statuses after) s.by_id in
    (
      length-take_le limit (sort_oldest found),
      take-All _ limit (sort_oldest found)
          (sort_oldest-All _ found (keep-queued statuses after s.by_id)),
      take-OldestFirst limit (sort_oldest found) (sort_oldest-OldestFirst found),
    )
