-- ===== src/Strategy/Floyd/Board.antt =====
-- `free_points` lists exactly the free cells of the board.
use russian_ai_cup.Base.{
  ℕ, zero, suc, ◌+◌, ◌≤◌, ◌<◌, ◌≡◌, refl, sym, ap, ◌∙◌, ◌↔◌, ◌⊎◌, inl, inr, ℤ, pos, pos_part, Bool,
  true, false, List, ◌∷◌, Member, here, there, Member-append_left, Member-append_right,
  Member-append_cases, Member-cons_cases, if◌then◌else◌, arith,
}
use russian_ai_cup.Model.World.{Cells}
use russian_ai_cup.Strategy.Point.{Point, is_correct}
use russian_ai_cup.Strategy.Floyd.{is_free, free_in_column, free_from, free_points}

-- `q` is a free cell of column `x` from `y` on, within `n` rounds.
record InColumn (cells : Cells) (q : Point) (x : ℤ) (n y : ℕ) : Type 0 where
  place : ℕ
  column : q.x ≡ x
  row : q.y ≡ pos place
  lower : y ≤ place
  upper : place < y + n
  free_cell : is_free cells q ≡ true

module _ (cells : Cells) (q : Point) where
  later : {x : ℤ} {n y : ℕ} → InColumn cells q x n (y + 1) → InColumn cells q x (suc n) y
  later h = record {
    place = h.place;
    column = h.column;
    row = h.row;
    lower = omega (arith, h.lower);
    upper = omega (arith, h.upper);
    free_cell = h.free_cell;
  }

  found :
      (x : ℤ) (n y : ℕ)
      → is_free cells (record { x = x; y = pos y }) ≡ true
      → InColumn cells (record { x = x; y = pos y }) x (suc n) y
  found x n y f = record {
    place = y;
    column = refl;
    row = refl;
    lower = omega arith;
    upper = omega arith;
    free_cell = f;
  }

  by_test :
      (x : ℤ) (n y : ℕ) (rest : List Point) (b : Bool)
      → is_free cells (record { x = x; y = pos y }) ≡ b
      → (Member q rest → InColumn cells q x n (y + 1))
      → Member q (if b then record { x = x; y = pos y } ∷ rest else rest)
      → InColumn cells q x (suc n) y
  by_test x n y rest true f next m = elim (Member-cons_cases m) [
    | inl e ↦ rw e (found x n y f)
    | inr r ↦ later (next r)
  ]
  by_test x n y rest false f next m = later (next m)

  column_sound : (x : ℤ) (n y : ℕ) → Member q (free_in_column cells x n y) → InColumn cells q x n y
  unfolding free_in_column
  column_sound x zero y m = elim m [ ]
  column_sound x (suc n) y m =
      by_test x n y (free_in_column cells x n (y + 1)) (is_free cells (record { x = x; y = pos y }))
        refl (column_sound x n (y + 1)) m

  push_free :
      (p : Point) (rest : List Point)
      → is_free cells p ≡ true
      → Member p (if is_free cells p then p ∷ rest else rest)
  push_free p rest f = rw f here

  keep_rest :
      (p : Point) (b : Bool) (rest : List Point)
      → Member q rest
      → Member q (if b then p ∷ rest else rest)
  keep_rest p true rest m = there m
  keep_rest p false rest m = m

  column_complete :
      (x : ℤ) (n y : ℕ) → InColumn cells q x n y → Member q (free_in_column cells x n y)
  unfolding free_in_column
  column_complete x zero y h = absurd (omega (arith, h.lower, h.upper))
  column_complete x (suc n) y h = elim (order y h.place h.lower) [
    | inl first ↦
        let e : q ≡ record { x = x; y = pos y } =
          λ i. record { x = h.column i; y = (h.row ∙ ap pos (sym first)) i } in
        rw e (push_free (record { x = x; y = pos y }) _ (rw e at (h.free_cell)))
    | inr more ↦ keep_rest _ (is_free cells (record { x = x; y = pos y })) _ (
        column_complete x n (y + 1) (record {
          place = h.place;
          column = h.column;
          row = h.row;
          lower = omega arith;
          upper = omega (arith, h.upper);
          free_cell = h.free_cell;
        }))
  ]
    where
      order : (a b : ℕ) → a ≤ b → (a ≡ b) ⊎ (a + 1 ≤ b)
      order a b h = omega arith

  from_sound :
      (height n x : ℕ)
      → Member q (free_from cells height n x)
      → (m : ℕ) × (x ≤ m) × (m < x + n) × InColumn cells q (pos m) height 0
  unfolding free_from
  from_sound height zero x m = elim m [ ]
  from_sound height (suc n) x m =
      elim (Member-append_cases (free_in_column cells (pos x) height 0) _ m) [
        | inl c ↦ (x, omega arith, omega arith, column_sound (pos x) height 0 c)
        | inr r ↦
            let (k, lo, hi, c) = from_sound height n (x + 1) r in (k, omega arith, omega arith, c)
      ]

  from_complete :
      (height n x m : ℕ)
      → x ≤ m
      → m < x + n
      → InColumn cells q (pos m) height 0
      → Member q (free_from cells height n x)
  unfolding free_from
  from_complete height zero x m lo hi c = absurd (omega arith)
  from_complete height (suc n) x m lo hi c = elim (order x m lo) [
    | inl e ↦ Member-append_left _ (column_complete (pos x) height 0 (rw (sym e) at c))
    | inr more ↦
        Member-append_right (free_in_column cells (pos x) height 0)
          (from_complete height n (x + 1) m more (omega arith) c)
  ]
    where
      order : (a b : ℕ) → a ≤ b → (a ≡ b) ⊎ (a + 1 ≤ b)
      order a b h = omega arith

  correct_bounds :
      (size_x size_y : ℤ) (m n : ℕ)
      → q.x ≡ pos m
      → q.y ≡ pos n
      → m < pos_part size_x
      → n < pos_part size_y
      → is_correct size_x size_y q ≡ true
  unfolding is_correct
  correct_bounds size_x size_y m n ex ey hx hy = ground arith

  coordinates :
      (size_x size_y : ℤ)
      → is_correct size_x size_y q ≡ true
      → (m : ℕ) × (n : ℕ) × (q.x ≡ pos m)
        × (q.y ≡ pos n)
        × (m < pos_part size_x)
        × (n < pos_part size_y)
  unfolding is_correct
  coordinates size_x size_y h =
      (pos_part q.x, pos_part q.y, ground arith, ground arith, ground arith, ground arith)

  -- The two loops collect exactly the free cells of the board.
  pub free_points_iff :
      (size_x size_y : ℤ)
      → Member q (free_points cells size_x size_y)
        ↔ ((is_correct size_x size_y q ≡ true) × (is_free cells q ≡ true))
  unfolding free_points
  free_points_iff size_x size_y = (
    λ m.
        let (k, lo, hi, c) = from_sound (pos_part size_y) (pos_part size_x) 0 m in
        (
          correct_bounds size_x size_y k c.place c.column c.row (omega arith)
              (omega (arith, c.upper)),
          c.free_cell,
        ),
    λ (h, f).
        let (m, n, ex, ey, hx, hy) = coordinates size_x size_y h in
        from_complete (pos_part size_y) (pos_part size_x) 0 m (omega arith) (omega arith) (record {
          place = n;
          column = ex;
          row = ey;
          lower = omega arith;
          upper = omega arith;
          free_cell = f;
        }),
  )
