-- ===== src/Base/Text.antt =====
-- Texts as lists of code points, with what the program uses of the standard library on them.
use Prim.Native.Char.{code}
use Prim.Native.String.{String}
use mathlib.Core.List.{reverse}
use misw4501_202614_grupo.Base.{
  ℕ, ◌+◌, ◌≡◌, refl, ap, ◌↔◌, Bool, true, false, ◌&&◌, ◌||◌, List, [], ◌∷◌, ◌++◌, arith, leb, ltb,
  ◌==◌, if◌then◌else◌, inl, inr, Bool-cases,
}

abbrev pub Str : Type 0
Str = List ℕ

-- The code points of a literal.
abbrev pub lit : String → Str
lit String.[] = []
lit (String.◌∷◌ c s) = code c ∷ lit s

abbrev pub is_empty : Str → Bool
is_empty [] = true
is_empty (_ ∷ _) = false

unfoldable pub str_eq : Str → Str → Bool
str_eq [] [] = true
str_eq [] (_ ∷ _) = false
str_eq (_ ∷ _) [] = false
str_eq (a ∷ s) (b ∷ t) = a == b && str_eq s t

pub str_eq→eq : (s t : Str) → str_eq s t ≡ true → s ≡ t
unfolding str_eq
str_eq→eq [] [] h = refl
str_eq→eq [] (_ ∷ _) h = cc
str_eq→eq (_ ∷ _) [] h = cc
str_eq→eq (a ∷ s) (b ∷ t) h = ground (arith, str_eq→eq s t)

pub str_eq_refl : (s : Str) → str_eq s s ≡ true
unfolding str_eq
str_eq_refl [] = refl
str_eq_refl (a ∷ s) = ground (arith, str_eq_refl s)

pub str_eq_iff : (s t : Str) → (str_eq s t ≡ true) ↔ (s ≡ t)
str_eq_iff s t = (str_eq→eq s t, λ e. rw e (str_eq_refl t))

-- Texts are ordered code point by code point, which is the order of their UTF-8 bytes.
unfoldable pub str_ltb : Str → Str → Bool
str_ltb [] [] = false
str_ltb [] (_ ∷ _) = true
str_ltb (_ ∷ _) [] = false
str_ltb (a ∷ s) (b ∷ t) = ltb a b || a == b && str_ltb s t

pub str_ltb_asym : (s t : Str) → str_ltb s t ≡ true → str_ltb t s ≡ false
unfolding str_ltb
str_ltb_asym [] [] h = cc
str_ltb_asym [] (_ ∷ _) h = refl
str_ltb_asym (_ ∷ _) [] h = cc
str_ltb_asym (a ∷ s) (b ∷ t) h = ground (arith, str_ltb_asym s t)

-- The order of texts, not after, is transitive.
pub str_ltb_trans : (s t u : Str) → str_ltb t s ≡ false → str_ltb u t ≡ false → str_ltb u s ≡ false
unfolding str_ltb
str_ltb_trans [] [] u h k = k
str_ltb_trans [] (b ∷ t) [] h k = cc
str_ltb_trans [] (b ∷ t) (c ∷ u) h k = refl
str_ltb_trans (a ∷ s) [] u h k = cc
str_ltb_trans (a ∷ s) (b ∷ t) [] h k = cc
str_ltb_trans (a ∷ s) (b ∷ t) (c ∷ u) h k = ground (arith, str_ltb_trans s t u)

-- `unicode.IsSpace`.
unfoldable pub is_space : ℕ → Bool
is_space c =
    leb 9 c && leb c 13
    || c == 32
    || c == 0x85
    || c == 0xa0
    || c == 0x1680
    || leb 0x2000 c && leb c 0x200a
    || c == 0x2028
    || c == 0x2029
    || c == 0x202f
    || c == 0x205f
    || c == 0x3000

unfoldable pub trim_left : Str → Str
unfolding is_space
trim_left [] = []
trim_left (c ∷ s) = elim (is_space c) [ true ↦ trim_left s | false ↦ c ∷ s ]

-- `strings.TrimSpace`.
unfoldable pub trim_space : Str → Str
unfolding trim_left
trim_space s = reverse (trim_left (reverse (trim_left s)))

-- The bytes of a code point in UTF-8, and `len` of a text.
abbrev pub rune_len : ℕ → ℕ
rune_len c = if ltb c 0x80 then 1 else if ltb c 0x800 then 2 else if ltb c 0x10000 then 3 else 4

abbrev pub byte_len : Str → ℕ
byte_len [] = 0
byte_len (c ∷ s) = rune_len c + byte_len s

-- Texts with one beginning are equal only if their ends are.
pub append_cancel : (p s t : Str) → p ++ s ≡ p ++ t → s ≡ t
append_cancel [] s t h = h
append_cancel (c ∷ p) s t h = append_cancel p s t (cc)

trims : trim_space (lit "  a b \n") ≡ lit "a b"
unfolding trim_space
trims = refl

-- `strings.HasPrefix(s, prefix)`.
unfoldable pub has_prefix : Str → Str → Bool
has_prefix s [] = true
has_prefix [] (_ ∷ _) = false
has_prefix (c ∷ s) (d ∷ prefix) = c == d && has_prefix s prefix

abbrev pub is_digit : ℕ → Bool
is_digit c = leb 0x30 c && leb c 0x39

-- A letter or a digit of ASCII, `_` or `-`.
abbrev pub is_word : ℕ → Bool
is_word c =
    leb 0x61 c && leb c 0x7a || leb 0x41 c && leb c 0x5a || is_digit c || c == 0x5f || c == 0x2d

-- Every code point of a text passes a test.
unfoldable pub every : (ℕ → Bool) → Str → Bool
every test [] = true
every test (c ∷ s) = test c && every test s

pub has_prefix-append : (p s : Str) → has_prefix (p ++ s) p ≡ true
unfolding has_prefix
has_prefix-append [] [] = refl
has_prefix-append [] (c ∷ s) = refl
has_prefix-append (c ∷ p) s = ground (arith, has_prefix-append p s)

-- `strings.Contains`.
unfoldable pub contains_text : Str → Str → Bool
unfolding has_prefix
contains_text [] part = is_empty part
contains_text (c ∷ s) part = has_prefix (c ∷ s) part || contains_text s part

pub has_prefix_iff : (s p : Str) → (has_prefix s p ≡ true) ↔ ((end : Str) × (s ≡ p ++ end))
unfolding has_prefix
has_prefix_iff s [] = ((λ _. (s, refl)), λ _. refl)
has_prefix_iff [] (d ∷ p) = ((λ h. absurd (ground arith)), λ (end, e). absurd (ground arith))
has_prefix_iff (c ∷ s) (d ∷ p) =
    let (f, g) = has_prefix_iff s p in
    (
      λ h. let heads : c ≡ d = ground arith in let (end, e) = f (ground arith) in (end, cc),
      λ (end, e).
          let heads : c ≡ d = ground arith in let tails = g (end, ground arith) in ground arith,
    )

-- A text is a part of another one.
abbrev pub Contains : Str → Str → Type 0
Contains s part = (start : Str) × (end : Str) × (s ≡ start ++ (part ++ end))

contains_text-append :
    (start end part : Str) (c : ℕ) (s : Str)
    → c ∷ s ≡ start ++ (part ++ end)
    → (((end : Str) × (c ∷ s ≡ part ++ end)) → has_prefix (c ∷ s) part ≡ true)
    → (Contains s part → contains_text s part ≡ true)
    → contains_text (c ∷ s) part ≡ true
unfolding contains_text
contains_text-append [] end part c s e g g' = let h = g (end, e) in rw h refl
contains_text-append (x ∷ start) end part c s e g g' =
    let h = g' (start, end, ground arith) in ground arith

no_part : (start end : Str) (d : ℕ) (p : Str) → [] ≡ start ++ (d ∷ (p ++ end)) → ⊥
no_part [] end d p e = absurd (ground arith)
no_part (x ∷ start) end d p e = absurd (ground arith)

pub contains_text_iff : (s part : Str) → (contains_text s part ≡ true) ↔ Contains s part
unfolding contains_text
contains_text_iff [] [] = ((λ _. ([], [], refl)), λ _. refl)
contains_text_iff [] (d ∷ p) =
    ((λ h. absurd (ground arith)), λ (start, end, e). absurd (no_part start end d p e))
contains_text_iff (c ∷ s) part =
    let (f, g) = has_prefix_iff (c ∷ s) part in
    let (f', g') = contains_text_iff s part in
    (
      λ h. elim (Bool-cases (has_prefix (c ∷ s) part)) [
        | inl b ↦ let (end, e) = f b in ([], end, e)
        | inr b ↦ let (start, end, e) = f' (ground arith) in (c ∷ start, end, ap (λ z. c ∷ z) e)
      ],
      λ (start, end, e). contains_text-append start end part c s e g g',
    )
