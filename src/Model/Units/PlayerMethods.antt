-- ===== src/Model/Units/PlayerMethods.antt =====
-- The constructor and the methods of the class Player (model/Player.cpp).
use russian_ai_cup.Base.{Bool, List, ℕ, ℤ}
use russian_ai_cup.Model.Units.{Player}

-- Player::Player(...)
abbrev pub make_player : ℤ → List ℕ → ℤ → Bool → ℤ → ℤ → Player
make_player id name score strategy_crashed approximate_x approximate_y = record {
  id = id;
  name = name;
  score = score;
  strategy_crashed = strategy_crashed;
  approximate_x = approximate_x;
  approximate_y = approximate_y;
}

abbrev pub get_id : Player → ℤ
get_id r = r.id

abbrev pub get_name : Player → List ℕ
get_name r = r.name

abbrev pub get_score : Player → ℤ
get_score r = r.score

abbrev pub is_strategy_crashed : Player → Bool
is_strategy_crashed r = r.strategy_crashed

abbrev pub get_approximate_x : Player → ℤ
get_approximate_x r = r.approximate_x

abbrev pub get_approximate_y : Player → ℤ
get_approximate_y r = r.approximate_y
