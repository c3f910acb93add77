-- ===== src/History/Selection.antt =====
-- The extent of selections: crates/mr-crabs-history/src/selection.rs. A character is its codepoint.
pub mod Words
pub mod Rows
use mr_crabs.Common.{
  ℕ, zero, suc, ◌+◌, ◌-◌, Bool, true, false, not, ◌&&◌, ◌||◌, ◌>>=◌, Option, none, some, List, [],
  ◌∷◌, if◌then◌else◌, leb, ltb, ◌==◌, min, length, get_elem?, contains,
}
use mr_crabs.Grid.{Cell, wide_spacer, has_flag}

pub data SelectionGesture : Type 0 where
  cell word line block : SelectionGesture

pub record SelectionPoint : Type 0 where
  pub line : ℕ
  pub col : ℕ

pub record Selection : Type 0 where
  pub gesture : SelectionGesture
  pub anchor : SelectionPoint
  pub active : SelectionPoint

abbrev pub same_point : SelectionPoint → SelectionPoint → Bool
same_point p q = (p.line == q.line) && (p.col == q.col)

abbrev pub anchor_first : Selection → Bool
anchor_first s =
    ltb s.anchor.line s.active.line
    || ((s.anchor.line == s.active.line) && leb s.anchor.col s.active.col)

unfoldable pub normalized : Selection → SelectionPoint × SelectionPoint
normalized s =
    let start : SelectionPoint = if anchor_first s then s.anchor else s.active in
    (start, if same_point start s.anchor then s.active else s.anchor)

-- The characters of "\t '\"│`|:;,()[]{}<>$".
abbrev pub default_word_boundaries : List ℕ
default_word_boundaries =
    9 ∷ 32 ∷ 39 ∷ 34 ∷ 0x2502 ∷ 96 ∷ 124 ∷ 58 ∷ 59 ∷ 44 ∷ 40 ∷ 41 ∷ 91 ∷ 93 ∷ 123 ∷ 125 ∷ 60 ∷ 62
    ∷ 36 ∷ []

abbrev pub is_boundary : List ℕ → ℕ → Bool
is_boundary characters c = (c == 0) || contains characters c

-- Whether `char::from_u32` gives a character.
abbrev pub is_char : ℕ → Bool
is_char c = ltb c 0xD800 || (leb 0xE000 c && leb c 0x10FFFF)

-- Out of range, where the source panics, there is no boundary; `expand_word` asks in range only.
unfoldable pub boundary_at : List Cell → ℕ → List ℕ → Bool
boundary_at cells col boundaries = elim (get_elem? cells col) [
  | none ↦ false
  | some c ↦
      if has_flag c wide_spacer
      then false
      else is_char c.content && is_boundary boundaries c.content
]

-- `u16::try_from(n).unwrap_or(u16::MAX)`.
abbrev pub to_u16 : ℕ → ℕ
to_u16 n = if leb n 65535 then n else 65535

-- while start > 0 && !boundary(start - 1) { start -= 1 }
unfoldable pub go_back : (ℕ → Bool) → ℕ → ℕ
go_back boundary zero = zero
go_back boundary (suc start) =
    let rest = go_back boundary start in if boundary start then suc start else rest

-- while end + 1 < cols && !boundary(end + 1) { end += 1 }, at most as often as the first number says.
unfoldable pub go_on : ℕ → (ℕ → Bool) → ℕ → ℕ → ℕ
go_on zero boundary cols end = end
go_on (suc fuel) boundary cols end =
    let rest = go_on fuel boundary cols (end + 1) in
    if ltb (end + 1) cols && not (boundary (end + 1)) then rest else end

unfoldable pub expand_word : List Cell → ℕ → List ℕ → ℕ × ℕ
unfolding boundary_at go_back go_on
expand_word cells col boundaries =
    let at = min col (length cells - 1) in
    let boundary : ℕ → Bool = λ i. boundary_at cells i boundaries in
    if length cells == 0
    then (0, 0)
    else if boundary at
    then (to_u16 at, to_u16 at)
    else (to_u16 (go_back boundary at), to_u16 (go_on (length cells) boundary (length cells) at))

-- `row(l).is_some_and(|(_, wrapped)| wrapped)`.
abbrev pub is_wrapped : (ℕ → Option (ℕ × Bool)) → ℕ → Bool
is_wrapped row l = elim (row l) [ none ↦ false | some (_, wrapped) ↦ wrapped ]

-- while wrapped(end) { end += 1 }, as long as the fuel lasts.
unfoldable pub wrapped_end : ℕ → (ℕ → Option (ℕ × Bool)) → ℕ → Option ℕ
wrapped_end zero row end = none
wrapped_end (suc fuel) row end =
    let rest = wrapped_end fuel row (end + 1) in if is_wrapped row end then rest else some end

unfoldable pub expand_line : ℕ → (ℕ → Option (ℕ × Bool)) → ℕ → Option (ℕ × ℕ)
unfolding go_back wrapped_end
expand_line fuel row l = do
  end ← wrapped_end fuel row l
  some (go_back (λ i. not (is_wrapped row i)) l, end)
