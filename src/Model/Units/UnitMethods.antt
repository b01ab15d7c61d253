-- ===== src/Model/Units/UnitMethods.antt =====
-- The constructor and the methods of the class Unit (model/Unit.cpp).
use russian_ai_cup.Base.{ℤ}
use russian_ai_cup.Model.Units.{GameUnit}

-- Unit::Unit(...)
abbrev pub make_unit : ℤ → ℤ → ℤ → GameUnit
make_unit id x y = record { id = id; x = x; y = y }

abbrev pub get_id : GameUnit → ℤ
get_id u = u.id

abbrev pub get_x : GameUnit → ℤ
get_x u = u.x

abbrev pub get_y : GameUnit → ℤ
get_y u = u.y
