-- ===== src/Model/Units/BonusMethods.antt =====
-- The constructor and the methods of the class Bonus (model/Bonus.cpp).
use russian_ai_cup.Base.{ℤ}
use russian_ai_cup.Model.Units.{Bonus, BonusType}

-- Bonus::Bonus(...)
abbrev pub make_bonus : ℤ → ℤ → ℤ → BonusType → Bonus
make_bonus id x y type = record { unit = record { id = id; x = x; y = y }; type = type }

abbrev pub get_type : Bonus → BonusType
get_type b = b.type
