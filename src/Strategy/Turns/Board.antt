-- ===== src/Strategy/Turns/Board.antt =====
-- What the globals hold of the board: `init` writes it in the first turn, the later ones keep it.
use russian_ai_cup.Base.{ℕ, suc, ◌≡◌, refl, sym, ap, ◌∙◌, pos, negsuc, ◌+ℤ◌, some, [], arith}
use russian_ai_cup.Model.World.{World}
use russian_ai_cup.Strategy.Point.{Point}
use russian_ai_cup.Strategy.Floyd.{floyd}
use russian_ai_cup.Strategy.Turns.{Library, Globals, init, begin_turn, pick_target, reset_target}
use russian_ai_cup.Strategy.Turns.Target.{SameBoard, pick_target-keeps, reset_target-keeps}

next_turn : (n : ℕ) → (pos n +ℤ pos 1) ≡ pos (suc n)
unfolding ◌+ℤ◌
next_turn n = ground arith

module _ {R : Type 0} where
  -- The sizes of the world, the distances between its cells, and a turn that has been.
  pub record Knows (w : World) (g : Globals R) : Type 0 where
    pub turn : ℕ
    pub counted : g.move_index ≡ pos turn
    pub width : g.size_x ≡ w.width
    pub height : g.size_y ≡ w.height
    pub table : g.floyd_dist ≡ floyd w.cells w.width w.height

  -- At the start of a turn: no turn has been, or the globals know the world's board.
  pub data Ready (w : World) (g : Globals R) : Type 0 where
    first_turn : g.move_index ≡ negsuc 0 → Ready w g
    later_turn : Knows w g → Ready w g

  pub Knows-same :
      {w v : World} {g : Globals R}
      → Knows w g
      → v.width ≡ w.width
      → v.height ≡ w.height
      → v.cells ≡ w.cells
      → Knows v g
  Knows-same {w} {v} k wide high cells = record {
    turn = k.turn;
    counted = k.counted;
    width = k.width ∙ sym wide;
    height = k.height ∙ sym high;
    table = rw (wide, high, cells) k.table;
  }

  module _ (lib : Library R) (w : World) where
    begun_first :
        (g : Globals R)
        → g.move_index ≡ negsuc 0
        → (begin_turn lib w g).1 ≡ (init lib w (record g { move_index = pos 0 })).1
    unfolding begin_turn ◌+ℤ◌
    begun_first g e =
        let h : (g.move_index +ℤ pos 1) ≡ pos 0 = ap (λ i. i +ℤ pos 1) e in rw (h, begin_turn) refl

    begun_later :
        (g : Globals R) (n : ℕ)
        → g.move_index ≡ pos n
        → begin_turn lib w g ≡ ([], record g { move_index = pos (suc n) })
    unfolding begin_turn
    begun_later g n e =
        let h : (g.move_index +ℤ pos 1) ≡ pos (suc n) = ap (λ i. i +ℤ pos 1) e ∙ next_turn n in
        rw (h, begin_turn) refl

    -- The board is known as soon as the turn has begun.
    pub begin_turn-Knows : (g : Globals R) → Ready w g → Knows w (begin_turn lib w g).1
    unfolding init
    begin_turn-Knows g (first_turn e) =
        rw (begun_first g e)
          (record { turn = 0; counted = refl; width = refl; height = refl; table = refl })
    begin_turn-Knows g (later_turn k) = rw (begun_later g k.turn k.counted) (record {
      turn = suc k.turn;
      counted = refl;
      width = k.width;
      height = k.height;
      table = k.table;
    })

    SameBoard-Knows :
        (self : Point) (g g' : Globals R) → SameBoard lib self g g' → Knows w g → Knows w g'
    SameBoard-Knows self g g' (x, y, d, m) k = record {
      turn = k.turn;
      counted = m ∙ k.counted;
      width = x ∙ k.width;
      height = y ∙ k.height;
      table = d ∙ k.table;
    }

    -- The board is known when the target is picked, and after it.
    pub reset-Knows :
        (self : Point) (g : Globals R)
        → Ready w g
        → Knows w (reset_target lib self (begin_turn lib w g).1)
    reset-Knows self g ready =
        SameBoard-Knows self (begin_turn lib w g).1 (reset_target lib self (begin_turn lib w g).1)
          (reset_target-keeps lib self (begin_turn lib w g).1) (begin_turn-Knows g ready)

    pub turn-Knows :
        (self : Point) (fuel : ℕ) (g g2 : Globals R)
        → Ready w g
        → pick_target lib fuel self (reset_target lib self (begin_turn lib w g).1) ≡ some g2
        → Knows w g2
    turn-Knows self fuel g g2 ready picked =
        SameBoard-Knows self (reset_target lib self (begin_turn lib w g).1) g2
          (pick_target-keeps lib self fuel _ g2 picked).0 (reset-Knows self g ready)
