-- ===== src/Audit/Lines.antt =====
-- The line structure of a log file: `contents.split('\n').filter((l) => l.length > 0)` and
-- `!contents.trim()` of packages/audit/src/log.ts.
use mathlib.Core.Path.{subst}
use mathlib.Core.List.{append_assoc, append-nil}
use arp.Common.{
  ◌≡◌, refl, Bool-cases, ◌⊎◌, inl, inr, Bool, true, false, ◌&&◌, List, [], ◌∷◌, ◌++◌, arith,
  if◌then◌else◌, nat_eq, any, keep, keep-append, All,
}

-- The code units of a text, as far as the log tells them apart: which one ends a line, and which
-- ones `trim` strips.
pub record Alphabet (S : Type 0) : Type 0 where
  pub newline : S
  pub is_newline : S → Bool
  pub is_space : S → Bool
  pub is_newline_lem : is_newline newline ≡ true

module _ {S : Type 0} (a : Alphabet S) where
  -- `!contents.trim()`
  unfoldable pub is_blank : List S → Bool
  is_blank [] = true
  is_blank (ch ∷ s) = a.is_space ch && is_blank s

  cons_head : S → List (List S) → List (List S)
  cons_head ch [] = (ch ∷ []) ∷ []
  cons_head ch (l ∷ ls) = (ch ∷ l) ∷ ls

  -- `split('\n')`
  split_lines : List S → List (List S)
  split_lines [] = [] ∷ []
  split_lines (ch ∷ s) =
      let rest = split_lines s in if a.is_newline ch then [] ∷ rest else cons_head ch rest

  abbrev not_empty : List S → Bool
  not_empty [] = false
  not_empty (ch ∷ s) = true

  unfoldable pub lines : List S → List (List S)
  unfolding split_lines cons_head
  lines text = keep not_empty (split_lines text)

  abbrev pub NoNewline : List S → Type 0
  NoNewline s = any a.is_newline s ≡ false

  -- A text that holds whole lines: each append starts on a line of its own.
  abbrev pub IsWhole : List S → Type 0
  IsWhole s = (s ≡ []) ⊎ ((u : List S) × (s ≡ u ++ a.newline ∷ []))

  split_lines-cons : (s : List S) → (l : List S) × (ls : List (List S)) × (split_lines s ≡ l ∷ ls)
  unfolding split_lines cons_head
  split_lines-cons [] = ([], [], refl)
  split_lines-cons (ch ∷ s) = elim (Bool-cases (a.is_newline ch)) [
    | inl ends ↦ ([], split_lines s, rw ends)
    | inr more ↦ let (l, ls, p) = split_lines-cons s in (ch ∷ l, ls, rw (more, p))
  ]

  split_lines-newline :
      (u v : List S) → split_lines (u ++ a.newline ∷ v) ≡ split_lines u ++ split_lines v
  unfolding split_lines cons_head
  split_lines-newline [] v = ground (arith, a.is_newline_lem)
  split_lines-newline (ch ∷ u) v =
      let (l, ls, p) = split_lines-cons u in ground (arith, split_lines-newline u v, p)

  split_lines_one : (l : List S) → NoNewline l → split_lines l ≡ l ∷ []
  unfolding split_lines cons_head
  split_lines_one [] h = refl
  split_lines_one (ch ∷ l) h = ground (arith, split_lines_one l)

  not_empty_of_not_blank : (l : List S) → is_blank l ≡ false → not_empty l ≡ true
  unfolding is_blank
  not_empty_of_not_blank [] h = cc
  not_empty_of_not_blank (ch ∷ l) h = refl

  lines-newline : (u v : List S) → lines (u ++ a.newline ∷ v) ≡ lines u ++ lines v
  unfolding lines
  lines-newline u v =
      rw (split_lines-newline u v) (keep-append not_empty (split_lines u) (split_lines v))

  pub lines_nil : lines [] ≡ []
  unfolding lines
  lines_nil = refl

  lines_single : (l : List S) → NoNewline l → is_blank l ≡ false → lines l ≡ l ∷ []
  unfolding lines
  lines_single l n b = rw (split_lines_one l n) (ground (arith, not_empty_of_not_blank l b))

  lines_one : (l : List S) → NoNewline l → is_blank l ≡ false → lines (l ++ a.newline ∷ []) ≡ l ∷ []
  lines_one l n b = rw (lines-newline l [], lines_single l n b, lines_nil)

  -- Appending a non-blank line to whole lines adds that line and changes no other.
  pub lines-append :
      (s l : List S)
      → IsWhole s
      → NoNewline l
      → is_blank l ≡ false
      → lines (s ++ (l ++ a.newline ∷ [])) ≡ lines s ++ l ∷ []
  lines-append s l (inl e) n b = rw (e, lines_nil) (lines_one l n b)
  lines-append s l (inr (u, e)) n b = rw (
    e,
    append_assoc u (a.newline ∷ []) (l ++ a.newline ∷ []),
    lines-newline u (l ++ a.newline ∷ []),
    lines-newline u [],
    lines_nil,
    append-nil (lines u),
    lines_one l n b,
  )

  pub is_blank-append : (s t : List S) → is_blank (s ++ t) ≡ (is_blank s && is_blank t)
  unfolding is_blank
  is_blank-append [] t = refl
  is_blank-append (ch ∷ s) t = ground (arith, is_blank-append s t)

  AllBlank-split_lines :
      (s : List S) → is_blank s ≡ true → All (λ l. is_blank l ≡ true) (split_lines s)
  unfolding split_lines cons_head is_blank
  AllBlank-split_lines [] h = (refl, tt)
  AllBlank-split_lines (ch ∷ s) h =
      let (l, ls, p) = split_lines-cons s in
      let ih : All (λ l'. is_blank l' ≡ true) (l ∷ ls) =
        subst (All (λ l'. is_blank l' ≡ true)) p (AllBlank-split_lines s (ground arith)) in
      elim (Bool-cases (a.is_newline ch)) [
        | inl ends ↦ rw ends (rw p (refl, ih))
        | inr more ↦ rw more (rw p (ground arith, ih.1))
      ]

  All-keep {κ} :
      (P : List S → Type κ) (p : List S → Bool) (ls : List (List S)) → All P ls → All P (keep p ls)
  All-keep P p [] h = tt
  All-keep P p (l ∷ ls) (a, h) = elim (Bool-cases (p l)) [
    | inl yes_l ↦ rw yes_l (a, All-keep P p ls h)
    | inr no_l ↦ rw no_l (All-keep P p ls h)
  ]

  pub AllBlank-lines : (s : List S) → is_blank s ≡ true → All (λ l. is_blank l ≡ true) (lines s)
  unfolding lines
  AllBlank-lines s h =
      All-keep (λ l. is_blank l ≡ true) not_empty (split_lines s) (AllBlank-split_lines s h)
