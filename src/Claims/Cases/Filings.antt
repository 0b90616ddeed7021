-- ===== src/Claims/Cases/Filings.antt =====
-- A filing is stored once, and a support goes to one claim.
use mathlib.Core.List.{append_assoc}
use misw4501_202614_grupo.Base.{
  ◌+◌, ◌≡◌, refl, ◌⊎◌, inl, inr, true, false, none, some, List, [], ◌∷◌, ◌++◌, ok, arith, All,
  Option-cases, Bool-cases, ap, sym, ◌∙◌,
}
use misw4501_202614_grupo.Base.Text.{Str, str_eq, str_eq_iff}
use misw4501_202614_grupo.Base.Dict.{Dict, lookup, insert, lookup-insert}
use misw4501_202614_grupo.Claims.Case.{Claim, ClaimRecord, Channel, AttachedSupport}
use misw4501_202614_grupo.Claims.Filing.{
  Formats, newline, filing_number, facts_text, facts_fingerprint, fingerprint, web_fingerprint,
}
use misw4501_202614_grupo.Claims.Cases.{
  CaseStore, owned_key, by_filing_key, attach, any_taken, numbered, insert_claim, mobile_record,
  create, web_record, insert_web, create_web,
}

-- A stored claim is found by its filing key.
by_filing_key-insert :
    (f : Formats) (c : ClaimRecord) (s : CaseStore)
    → by_filing_key c.subject c.filing_key (insert_claim f c s) ≡ some (numbered f c s)
unfolding by_filing_key insert_claim
by_filing_key-insert f c s = ground (
  arith,
  lookup-insert (owned_key c.subject c.filing_key) (owned_key c.subject c.filing_key) c.id s.by_key,
  str_eq_iff (owned_key c.subject c.filing_key) (owned_key c.subject c.filing_key),
  lookup-insert c.id c.id (numbered f c s) s.by_id,
  str_eq_iff c.id c.id,
)

create-new :
    (f : Formats) (c : Claim) (s : CaseStore)
    → by_filing_key c.subject c.filing_key s ≡ none
    → create f c s
      ≡ (insert_claim f (mobile_record c) s, ok ((numbered f (mobile_record c) s).claim, true))
unfolding create
create-new f c s e = rw (create, e) refl

create-found :
    (f : Formats) (c : Claim) (s : CaseStore) (old : ClaimRecord)
    → by_filing_key c.subject c.filing_key s ≡ some old
    → old.channel ≡ Channel.mobile
    → fingerprint f old.claim ≡ fingerprint f c
    → create f c s ≡ (s, ok (old.claim, false))
unfolding create
create-found f c s old e on same_text =
    rw (create, e) (ground (arith, str_eq_iff (fingerprint f old.claim) (fingerprint f c)))

-- The number of a claim is no part of what it is recognised by.
fingerprint-numbered :
    (f : Formats) (c : ClaimRecord) (s : CaseStore)
    → (fingerprint f (numbered f c s).claim ≡ fingerprint f c.claim)
      × (web_fingerprint f (numbered f c s) ≡ web_fingerprint f c)
unfolding fingerprint facts_fingerprint facts_text web_fingerprint
fingerprint-numbered f c s = (refl, refl)

-- A mobile filing whose key its owner did not use is stored with the next number, and the same
-- filing sent again, right after it, finds that claim and changes nothing.
create_again :
    (f : Formats) (c : Claim) (s : CaseStore)
    → by_filing_key c.subject c.filing_key s ≡ none
    → let stored = (numbered f (mobile_record c) s).claim in
      let s' = (create f c s).0 in
      ((create f c s).1 ≡ ok (stored, true))
      × (stored.filing_number ≡ filing_number f c.filed_at (s.sequence + 1))
      × (create f c s' ≡ (s', ok (stored, false)))
create_again f c s e = rw (create-new f c s e) (
  refl,
  refl,
  create-found f c (insert_claim f (mobile_record c) s) (numbered f (mobile_record c) s)
      (by_filing_key-insert f (mobile_record c) s) refl
      (fingerprint-numbered f (mobile_record c) s).0,
)

create_web-new :
    (f : Formats) (c : ClaimRecord) (s : CaseStore)
    → by_filing_key c.subject c.filing_key s ≡ none
    → any_taken c.supports s.attached_to ≡ false
    → create_web f c s ≡ (insert_web f c s, ok (numbered f (web_record c) s, true))
unfolding create_web
create_web-new f c s e h = rw (create_web, e, h) refl

create_web-found :
    (f : Formats) (c : ClaimRecord) (s : CaseStore) (old : ClaimRecord)
    → by_filing_key c.subject c.filing_key s ≡ some old
    → old.channel ≡ Channel.web
    → web_fingerprint f old ≡ web_fingerprint f c
    → create_web f c s ≡ (s, ok (old, false))
unfolding create_web
create_web-found f c s old e on same_text =
    rw (create_web, e) (ground (arith, str_eq_iff (web_fingerprint f old) (web_fingerprint f c)))

-- A support that is attached stays attached to its claim, unless a filing names it.
attach-keeps :
    (id : Str) (supports : List AttachedSupport) (m : Dict Str) (k : Str)
    → ((lookup k (attach id supports m) ≡ some id) ⊎ (lookup k (attach id supports m) ≡ lookup k m))
unfolding attach
attach-keeps id [] m k = inr refl
attach-keeps id (a ∷ rest) m k = ground (
  arith,
  attach-keeps id rest (insert a.file.id id m) k,
  lookup-insert a.file.id k id m,
  str_eq_iff a.file.id k,
)

attach-attaches :
    (id : Str) (supports : List AttachedSupport) (m : Dict Str)
    → All (λ a. lookup a.file.id (attach id supports m) ≡ some id) supports
unfolding attach
attach-attaches id [] m = tt
attach-attaches id (a ∷ rest) m = (
  ground (
    arith,
    attach-keeps id rest (insert a.file.id id m) a.file.id,
    lookup-insert a.file.id a.file.id id m,
    str_eq_iff a.file.id a.file.id,
  ),
  attach-attaches id rest (insert a.file.id id m),
)

not_taken-ne :
    (supports : List AttachedSupport) (m : Dict Str) (k owner : Str)
    → any_taken supports m ≡ false
    → lookup k m ≡ some owner
    → All (λ a. str_eq a.file.id k ≡ false) supports
unfolding any_taken
not_taken-ne [] m k owner h e = tt
not_taken-ne (a ∷ rest) m k owner h e = elim (Option-cases (lookup a.file.id m)) [
  | inl free ↦ (
    elim (Bool-cases (str_eq a.file.id k)) [
      | inl same_id ↦
          absurd (ground (arith, ap (λ i. lookup i m) ((str_eq_iff a.file.id k).0 same_id)))
      | inr other_id ↦ other_id
    ],
    not_taken-ne rest m k owner (ground arith) e,
  )
  | inr (o, taken) ↦ absurd (ground arith)
]

attach-ne :
    (id : Str) (supports : List AttachedSupport) (m : Dict Str) (k : Str)
    → All (λ a. str_eq a.file.id k ≡ false) supports
    → lookup k (attach id supports m) ≡ lookup k m
unfolding attach
attach-ne id [] m k h = refl
attach-ne id (a ∷ rest) m k (ne, h) =
    attach-ne id rest (insert a.file.id id m) k h ∙ ground (arith, lookup-insert a.file.id k id m)

-- Whatever web filing is sent, a support that is attached to a claim stays attached to that claim.
pub create_web_keeps :
    (f : Formats) (c : ClaimRecord) (s : CaseStore) (k owner : Str)
    → lookup k s.attached_to ≡ some owner
    → lookup k (create_web f c s).0.attached_to ≡ some owner
unfolding create_web insert_web
create_web_keeps f c s k owner e = elim (Option-cases (by_filing_key c.subject c.filing_key s)) [
  | inl new ↦ elim (Bool-cases (any_taken c.supports s.attached_to)) [
    | inl taken ↦ rw (create_web, new, taken) e
    | inr free ↦
        rw (create_web, new, free)
          (attach-ne c.id c.supports s.attached_to k
              (not_taken-ne c.supports s.attached_to k owner free e)
            ∙ e)
  ]
  | inr (old, found) ↦ ground arith
]

insert_web-by_filing_key :
    (f : Formats) (c : ClaimRecord) (s : CaseStore)
    → by_filing_key c.subject c.filing_key (insert_web f c s) ≡ some (numbered f (web_record c) s)
unfolding insert_web by_filing_key
insert_web-by_filing_key f c s = by_filing_key-insert f (web_record c) s

insert_web-by_id :
    (f : Formats) (c : ClaimRecord) (s : CaseStore)
    → lookup c.id (insert_web f c s).by_id ≡ some (numbered f (web_record c) s)
unfolding insert_web insert_claim
insert_web-by_id f c s =
    ground
      (arith, lookup-insert c.id c.id (numbered f (web_record c) s) s.by_id, str_eq_iff c.id c.id)

-- A web filing whose key its owner did not use and whose supports are free is stored under its id, as a
-- web claim, with the number after the last one, which is then the last one, and all of its supports
-- are attached to it; the same filing sent again, right after it, finds that claim and changes nothing.
pub create_web_again :
    (f : Formats) (c : ClaimRecord) (s : CaseStore)
    → by_filing_key c.subject c.filing_key s ≡ none
    → any_taken c.supports s.attached_to ≡ false
    → let stored = numbered f (web_record c) s in
      let s' = (create_web f c s).0 in
      ((create_web f c s).1 ≡ ok (stored, true))
      × (stored.channel ≡ Channel.web)
      × (stored.filing_number ≡ filing_number f c.filed_at (s.sequence + 1))
      × (s'.sequence ≡ s.sequence + 1)
      × (lookup c.id s'.by_id ≡ some stored)
      × All (λ a. lookup a.file.id s'.attached_to ≡ some c.id) c.supports
      × (create_web f c s' ≡ (s', ok (stored, false)))
unfolding insert_web insert_claim web_fingerprint
create_web_again f c s e free = rw (create_web-new f c s e free) (
  refl,
  refl,
  refl,
  refl,
  insert_web-by_id f c s,
  attach-attaches c.id c.supports s.attached_to,
  create_web-found f c (insert_web f c s) (numbered f (web_record c) s)
      (insert_web-by_filing_key f c s) refl (fingerprint-numbered f (web_record c) s).1,
)

move_line :
    (p r d t : Str)
    → (p ++ (newline ++ r)) ++ (newline ++ (d ++ t))
      ≡ p ++ (newline ++ ((r ++ (newline ++ d)) ++ t))
move_line [] r d t = ap {B = Str} (λ x. 10 ∷ x) (sym (append_assoc r (newline ++ d) t))
move_line (x ∷ p) r d t = ap {B = Str} (λ y. x ∷ y) (move_line p r d t)

facts_text-place :
    (f : Formats) (c : Claim) (place rest description : Str)
    → facts_text f (record c { place = place ++ (newline ++ rest); description = description })
      ≡ facts_text f (record c { place = place; description = rest ++ (newline ++ description) })
unfolding facts_text
facts_text-place f c place rest description =
    rw (facts_text, move_line place rest description _) refl

-- A line break moves between the place and the description of a claim unnoticed: the two filings
-- have the same fingerprint, whatever the digest.
pub fingerprint-place :
    (f : Formats) (c : Claim) (place rest description : Str)
    → fingerprint f (record c { place = place ++ (newline ++ rest); description = description })
      ≡ fingerprint f (record c { place = place; description = rest ++ (newline ++ description) })
unfolding fingerprint facts_fingerprint
fingerprint-place f c place rest description = elim (Option-cases (c.estimated_amount_minor)) [
  | inl e ↦ ground (arith, facts_text-place f c place rest description)
  | inr (amount, e) ↦ ground (arith, facts_text-place f c place rest description)
]
