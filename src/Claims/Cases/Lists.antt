-- ===== src/Claims/Cases/Lists.antt =====
-- The lists of claims with their cursors, services/claims/internal/adapters/memory/cases.go: by owner,
-- newest first, and by status, oldest first. A page ends at the first `limit` claims.
pub mod Pages
use misw4501_202614_grupo.Base.{
  ℕ, Bool, true, false, not, ◌||◌, ◌&&◌, ◌==◌, ltb, same, contains, Option, none, some, List, [],
  ◌∷◌, take, if◌then◌else◌,
}
use misw4501_202614_grupo.Base.Int.{ℤ, pos, negsuc}
use misw4501_202614_grupo.Base.Text.{Str, str_eq, str_ltb, is_empty}
use misw4501_202614_grupo.Base.Dict.{Dict}
use misw4501_202614_grupo.Base.Clock.{Time, is_zero, is_before, is_after}
use misw4501_202614_grupo.Claims.Case.{Status, Status-discrete, ClaimRecord}
use misw4501_202614_grupo.Claims.Cases.{CaseStore}

pub record ClaimCursor : Type 0 where
  pub filed_at : Time
  pub id : Str

-- `none` and the zero time do not filter; an empty policy id does not either.
pub record ClaimFilter : Type 0 where
  pub status : Option Status
  pub policy_id : Str
  pub filed_from : Time

unfoldable pub older_than : ClaimRecord → ClaimCursor → Bool
older_than c cursor =
    if not (c.filed_at == cursor.filed_at)
    then is_before c.filed_at cursor.filed_at
    else str_ltb c.id cursor.id

unfoldable pub newer_than : ClaimRecord → ClaimCursor → Bool
newer_than c cursor =
    if not (c.filed_at == cursor.filed_at)
    then is_after c.filed_at cursor.filed_at
    else str_ltb cursor.id c.id

-- Where a page that ends with the claim ends.
abbrev pub cursor_of : ClaimRecord → ClaimCursor
cursor_of c = record { filed_at = c.filed_at; id = c.id }

abbrev pub bare : ClaimRecord → ClaimRecord
bare c = let claim = c.claim in record c { claim = record claim { evidence = [] }; supports = [] }

unfoldable pub keep : (ClaimRecord → Bool) → Dict ClaimRecord → List ClaimRecord
keep match [] = []
keep match ((_, c) ∷ cs) = let rest = keep match cs in if match c then bare c ∷ rest else rest

-- The sort of the list by owner puts a claim after another one that is not older.
unfoldable pub insert_newest : ClaimRecord → List ClaimRecord → List ClaimRecord
insert_newest c [] = c ∷ []
insert_newest c (d ∷ ds) =
    let rest = insert_newest c ds in
    if not (older_than d (cursor_of c)) then d ∷ rest else c ∷ d ∷ ds

unfoldable pub sort_newest : List ClaimRecord → List ClaimRecord
unfolding insert_newest
sort_newest [] = []
sort_newest (c ∷ cs) = insert_newest c (sort_newest cs)

unfoldable pub insert_oldest : ClaimRecord → List ClaimRecord → List ClaimRecord
insert_oldest c [] = c ∷ []
insert_oldest c (d ∷ ds) =
    let rest = insert_oldest c ds in if older_than d (cursor_of c) then d ∷ rest else c ∷ d ∷ ds

unfoldable pub sort_oldest : List ClaimRecord → List ClaimRecord
unfolding insert_oldest
sort_oldest [] = []
sort_oldest (c ∷ cs) = insert_oldest c (sort_oldest cs)

abbrev has_status : Option Status → ClaimRecord → Bool
has_status none c = true
has_status (some st) c = same Status-discrete c.status st

abbrev is_past : Option ClaimCursor → ClaimRecord → Bool
is_past none c = true
is_past (some cursor) c = older_than c cursor

abbrev is_ahead : Option ClaimCursor → ClaimRecord → Bool
is_ahead none c = true
is_ahead (some cursor) c = newer_than c cursor

unfoldable pub owned : Str → ClaimFilter → Option ClaimCursor → ClaimRecord → Bool
owned subject f after c =
    str_eq c.subject subject
    && has_status f.status c
    && (is_empty f.policy_id || str_eq c.policy_id f.policy_id)
    && (is_zero f.filed_from || not (is_before c.filed_at f.filed_from))
    && is_past after c

unfoldable pub list_by_owner :
    Str → ClaimFilter → Option ClaimCursor → ℕ → CaseStore → List ClaimRecord
unfolding keep sort_newest
list_by_owner subject f after limit s =
    take limit (sort_newest (keep (owned subject f after) s.by_id))

unfoldable pub queued : List Status → Option ClaimCursor → ClaimRecord → Bool
queued statuses after c = contains Status-discrete c.status statuses && is_ahead after c

-- A negative limit is none.
abbrev pub take_limit : ℤ → List ClaimRecord → List ClaimRecord
take_limit (pos n) cs = take n cs
take_limit (negsuc n) cs = cs

unfoldable pub list_by_status : List Status → Option ClaimCursor → ℤ → CaseStore → List ClaimRecord
unfolding keep sort_oldest
list_by_status statuses after limit s =
    take_limit limit (sort_oldest (keep (queued statuses after) s.by_id))
