-- ===== src/Model/Move/Methods.antt =====
-- The methods of the class Move (model/Move.cpp).
use russian_ai_cup.Base.{ℤ}
use russian_ai_cup.Model.Move.{ActionType, Direction, Move}

abbrev pub get_action : Move → ActionType
get_action m = m.action

abbrev pub get_direction : Move → Direction
get_direction m = m.direction

abbrev pub get_x : Move → ℤ
get_x m = m.x

abbrev pub get_y : Move → ℤ
get_y m = m.y

abbrev pub set_action : ActionType → Move → Move
set_action action m = record m { action = action }

abbrev pub set_direction : Direction → Move → Move
set_direction direction m = record m { direction = direction }

abbrev pub set_x : ℤ → Move → Move
set_x x m = record m { x = x }

abbrev pub set_y : ℤ → Move → Move
set_y y m = record m { y = y }
