-- ===== src/Tests/Answers.antt =====
-- The program in a game of two turns in which no score overflows.
use russian_ai_cup.Base.{
  ℕ, zero, suc, ◌+◌, ◌-◌, ◌*◌, ◌<◌, ◌≡◌, ◌≢◌, refl, sym, subst, ℤ, pos, negsuc, ◌+ℤ◌, ◌-ℤ◌, true,
  List, [], ◌∷◌, Member, here, there, length, arith,
}
use russian_ai_cup.Model.Move.{Move}
use russian_ai_cup.Model.Trooper.{Trooper}
use russian_ai_cup.Strategy.Point.{Point, point_of, is_correct, neighs, push_if}
use russian_ai_cup.Strategy.Floyd.{inf, floyd, is_free, free_points}
use russian_ai_cup.Strategy.Turn.{Turn, State}
use russian_ai_cup.Strategy.Search.Plans.{Plan}
use russian_ai_cup.Strategy.Search.Legal.{IsSafe}
use russian_ai_cup.Strategy.Search.Whole.{IsWhole}
use russian_ai_cup.Strategy.Search.Bounds.{IsTame}
use russian_ai_cup.Strategy.Search.Returns.{Plan-IsSafe}
use russian_ai_cup.Strategy.Turns.{start, begin_turn, init, troopers_of}
use russian_ai_cup.Strategy.Turns.Sums.{IsReached}
use russian_ai_cup.Strategy.Turns.Fair.{IsBounded, sight}
use russian_ai_cup.Runner.Sent.{Sent}
use russian_ai_cup.Tests.Samples.{rules}
use russian_ai_cup.Tests.Turns.{counter, easy, sniper_here}
use russian_ai_cup.Tests.Game.{seven, first_Fair, second_Fair}

abbrev on_row : ℕ → Point
on_row k = record { x = pos k; y = pos 0 }

-- From every cell of the row its ends can be reached.
to_east : (k : ℕ) → k < 7 → floyd seven.cells (pos 7) (pos 1) (on_row k) (on_row 6) ≢ inf
unfolding floyd is_free neighs push_if is_correct ◌-ℤ◌ ◌+ℤ◌
to_east zero h = omega arith
to_east (suc zero) h = omega arith
to_east (suc (suc zero)) h = omega arith
to_east (suc (suc (suc zero))) h = omega arith
to_east (suc (suc (suc (suc zero)))) h = omega arith
to_east (suc (suc (suc (suc (suc zero))))) h = omega arith
to_east (suc (suc (suc (suc (suc (suc zero)))))) h = omega arith
to_east (suc (suc (suc (suc (suc (suc (suc k))))))) h = absurd (omega arith)

to_west : (k : ℕ) → k < 7 → floyd seven.cells (pos 7) (pos 1) (on_row k) (on_row 0) ≢ inf
unfolding floyd is_free neighs push_if is_correct ◌-ℤ◌ ◌+ℤ◌
to_west zero h = omega arith
to_west (suc zero) h = omega arith
to_west (suc (suc zero)) h = omega arith
to_west (suc (suc (suc zero))) h = omega arith
to_west (suc (suc (suc (suc zero)))) h = omega arith
to_west (suc (suc (suc (suc (suc zero))))) h = omega arith
to_west (suc (suc (suc (suc (suc (suc zero)))))) h = omega arith
to_west (suc (suc (suc (suc (suc (suc (suc k))))))) h = absurd (omega arith)

cell_of :
    (x y : ℤ)
    → is_correct (pos 7) (pos 1) (record { x = x; y = y }) ≡ true
    → (k : ℕ) × (k < 7) × (x ≡ pos k) × (y ≡ pos 0)
unfolding is_correct
cell_of (pos k) (pos zero) h = (k, ground arith, refl, refl)
cell_of (pos k) (pos (suc n)) h = absurd (ground arith)
cell_of (pos k) (negsuc n) h = absurd (ground arith)
cell_of (negsuc k) y h = absurd (ground arith)

reached_from :
    (p q : Point)
    → ((k : ℕ) → k < 7 → floyd seven.cells (pos 7) (pos 1) (on_row k) q ≢ inf)
    → is_correct (pos 7) (pos 1) p ≡ true
    → floyd seven.cells (pos 7) (pos 1) p q ≢ inf
reached_from p q h on_board =
    let (k, small, x, y) = cell_of p.x p.y on_board in
    subst (λ a. floyd seven.cells (pos 7) (pos 1) (record { x = a; y = p.y }) q ≢ inf) (sym x)
      (subst (λ b. floyd seven.cells (pos 7) (pos 1) (record { x = pos k; y = b }) q ≢ inf) (sym y)
        (h k small))

few_cells : length (free_points seven.cells (pos 7) (pos 1)) < 500_000
unfolding free_points is_free
few_cells = omega arith

-- A turn of the game.
abbrev first_turn : Turn
first_turn = sight counter easy 5 rules first_Fair

abbrev second_turn : Turn
second_turn = sight counter easy 5 rules second_Fair

first-IsTame : IsTame first_turn
unfolding troopers_of
first-IsTame = record {
  enemies = omega arith;
  teammates = omega arith;
  direct = omega arith;
  collateral = omega arith;
  medikit = omega arith;
  medikit_self = omega arith;
  medic = omega arith;
  medic_self = omega arith;
  prone_damage = omega arith;
  kneeling_damage = omega arith;
  standing_damage = omega arith;
}

first-IsWhole : IsWhole first_turn
unfolding begin_turn init troopers_of is_correct ◌+ℤ◌
first-IsWhole = record {
  width = refl;
  height = refl;
  columns = refl;
  rows = (refl, (refl, (refl, (refl, (refl, (refl, (refl, tt)))))));
  visibilities = refl;
  target = refl;
  mates = (refl, tt);
  enemies = tt;
  stances = tt;
}

first-IsSafe : IsSafe first_turn (start sniper_here)
unfolding start is_correct
first-IsSafe = record { named = refl; on_board = refl }

-- The mate is the sniper itself, at the west end.
reached_mates :
    (p : Point)
    → is_correct (pos 7) (pos 1) p ≡ true
    → (mate : Trooper) → Member mate (sniper_here ∷ [])
    → floyd seven.cells (pos 7) (pos 1) p (point_of mate.unit) ≢ inf
reached_mates p on_board _ here = reached_from p (on_row 0) to_west on_board
reached_mates p on_board _ (there m) = elim m [ ]

first-IsReached :
    (e : State)
    → Plan first_turn 10 sniper_here.action_points (start sniper_here) e
    → IsReached first_turn e
unfolding troopers_of
first-IsReached e plan =
    let safe =
      Plan-IsSafe first_turn 10 sniper_here.action_points (start sniper_here) e first-IsSafe plan in
    record {
      target = reached_from e.pos (on_row 6) to_east safe.on_board;
      mates = reached_mates e.pos safe.on_board;
    }

pub first-IsBounded : IsBounded first_turn
first-IsBounded = record {
  whole = first-IsWhole;
  tame = first-IsTame;
  few_free = few_cells;
  reached = first-IsReached;
}

-- The digits of a number.
abbrev number : ℕ → List ℕ → ℕ
number n [] = n
number n (c ∷ cs) = number (n * 10 + (c - b'0')) cs

abbrev read_number : List ℕ → ℤ
read_number text = pos (number 0 text)
