-- ===== src/Model/World/Visible.antt =====
-- The index into the visibilities that World::isVisible computes: a number of five digits, in range
-- on the board, and another one for every other pair of cells and stance.
use russian_ai_cup.Base.{
  ℕ, ◌+◌, ◌*◌, ◌≤◌, ◌<◌, ◌≡◌, sym, ap, ◌∙◌, ◌⊎◌, inl, inr, pos, pos_part, pos-mul, pos-add, arith,
}
use native.Mathlib.Decide.{dec_lt}
use russian_ai_cup.Model.World.{visibility_index}

abbrev pub digits : ℕ → ℕ → ℕ → ℕ → ℕ → ℕ → ℕ → ℕ
digits w h vx vy ox oy s = (((vx * h + vy) * w + ox) * h + oy) * 3 + s

digit-lt : (a b m n : ℕ) → a < m → b < n → a * n + b < m * n
digit-lt a b m n h k = grind arith

mul_step : (a b n : ℕ) → a < b → a * n + n ≤ b * n
mul_step a b n h = grind arith

<-cases : (a b : ℕ) → (a < b) ⊎ ((b < a) ⊎ (a ≡ b))
<-cases a b = elim (dec_lt a b) [
  | yes h ↦ inl h
  | no h ↦ elim (dec_lt b a) [ yes k ↦ inr (inl k) | no k ↦ inr (inr (omega arith)) ]
]

digit-injective : (a b a' b' n : ℕ) → b < n → b' < n → a * n + b ≡ a' * n + b' → (a ≡ a') × (b ≡ b')
digit-injective a b a' b' n h k e = elim (<-cases a a') [
  | inl less ↦ let far : a * n + n ≤ a' * n = mul_step a a' n less in absurd (omega arith)
  | inr (inl more) ↦ let far : a' * n + n ≤ a * n = mul_step a' a n more in absurd (omega arith)
  | inr (inr same) ↦ let e' : a * n ≡ a' * n = ap (λ (x : ℕ). x * n) same in (same, omega arith)
]

horner :
    (w h vx vy ox oy s : ℕ)
    → vx * h * w * h * 3 + vy * w * h * 3 + ox * h * 3 + oy * 3 + s ≡ digits w h vx vy ox oy s
horner w h vx vy ox oy s = grind arith

pub visibility_index-eq :
    (w h vx vy ox oy s : ℕ)
    → visibility_index (pos w) (pos h) (pos vx) (pos vy) (pos ox) (pos oy) (pos s)
      ≡ pos (digits w h vx vy ox oy s)
unfolding visibility_index
visibility_index-eq w h vx vy ox oy s = simp (pos-mul, pos-add, horner)

module _ (w h vx vy ox oy s : ℕ) where
  digits-lt :
      vx < w → vy < h → ox < w → oy < h → s < 3 → digits w h vx vy ox oy s < w * h * w * h * 3
  digits-lt a b c d e =
      let two : vx * h + vy < w * h = digit-lt vx vy w h a b in
      let three : (vx * h + vy) * w + ox < w * h * w = digit-lt (vx * h + vy) ox (w * h) w two c in
      let four : ((vx * h + vy) * w + ox) * h + oy < w * h * w * h =
        digit-lt ((vx * h + vy) * w + ox) oy (w * h * w) h three d in
      digit-lt (((vx * h + vy) * w + ox) * h + oy) s (w * h * w * h) 3 four e

  -- For two cells of a board of w times h cells and one of the three stances, the index that
  -- World::isVisible computes is a number below w * h * w * h * 3, which is the size of the vector
  -- that the server sends for this board: the read is in range.
  pub visibility_index-lt :
      vx < w
      → vy < h
      → ox < w
      → oy < h
      → s < 3
      → (i : ℕ) × (visibility_index (pos w) (pos h) (pos vx) (pos vy) (pos ox) (pos oy) (pos s)
          ≡ pos i)
        × (i < w * h * w * h * 3)
  visibility_index-lt a b c d e =
      (digits w h vx vy ox oy s, visibility_index-eq w h vx vy ox oy s, digits-lt a b c d e)

module _ (w h vx vy ox oy s vx' vy' ox' oy' s' : ℕ) where
  digits-injective :
      vy < h
      → vy' < h
      → ox < w
      → ox' < w
      → oy < h
      → oy' < h
      → s < 3
      → s' < 3
      → digits w h vx vy ox oy s ≡ digits w h vx' vy' ox' oy' s'
      → (vx ≡ vx') × (vy ≡ vy') × (ox ≡ ox') × (oy ≡ oy') × (s ≡ s')
  digits-injective b b' c c' d d' e e' eq =
      let (four, is) = digit-injective _ s _ s' 3 e e' eq in
      let (three, ioy) = digit-injective _ oy _ oy' h d d' four in
      let (two, iox) = digit-injective _ ox _ ox' w c c' three in
      let (ivx, ivy) = digit-injective vx vy vx' vy' h b b' two in (ivx, ivy, iox, ioy, is)

  -- On the board and for the three stances, the index tells viewer, object and stance apart: no two
  -- questions of World::isVisible read the same entry, unless their lower stances are the same.
  pub visibility_index-injective :
      vy < h
      → vy' < h
      → ox < w
      → ox' < w
      → oy < h
      → oy' < h
      → s < 3
      → s' < 3
      → visibility_index (pos w) (pos h) (pos vx) (pos vy) (pos ox) (pos oy) (pos s)
        ≡ visibility_index (pos w) (pos h) (pos vx') (pos vy') (pos ox') (pos oy') (pos s')
      → (vx ≡ vx') × (vy ≡ vy') × (ox ≡ ox') × (oy ≡ oy') × (s ≡ s')
  visibility_index-injective b b' c c' d d' e e' eq =
      let eq' : pos (digits w h vx vy ox oy s) ≡ pos (digits w h vx' vy' ox' oy' s') =
        sym (visibility_index-eq w h vx vy ox oy s)
        ∙ eq
        ∙ visibility_index-eq w h vx' vy' ox' oy' s' in
      digits-injective b b' c c' d d' e e' (ap pos_part eq')
