-- ===== src/Strategy/Search/Whole.antt =====
-- A turn in which the search reads nothing out of range.
use russian_ai_cup.Base.{◌*◌, ◌≡◌, pos, pos_part, true, List, All, length}
use russian_ai_cup.Model.Trooper.{Trooper}
use russian_ai_cup.Strategy.Point.{point_of, is_correct}
use russian_ai_cup.Strategy.Turn.{Turn}
use russian_ai_cup.Strategy.Search.Legal.{is_named}

module _ (t : Turn) where
  abbrev AreOnBoard : List Trooper → Type 0
  AreOnBoard troopers =
      All (λ trooper. is_correct t.size_x t.size_y (point_of trooper.unit) ≡ true) troopers

  -- The sizes are the world's, the cells and the visibilities of three stances have these sizes, the
  -- target and every trooper is on the board, and every enemy has one of the three stances.
  pub record IsWhole : Type 0 where
    pub width : t.size_x ≡ t.world.width
    pub height : t.size_y ≡ t.world.height
    pub columns : pos (length t.cells) ≡ t.size_x
    pub rows : All (λ column. pos (length column) ≡ t.size_y) t.cells
    pub visibilities :
        length t.world.cell_visibilities
        ≡ pos_part t.size_x * pos_part t.size_y * pos_part t.size_x * pos_part t.size_y * 3
    pub target : is_correct t.size_x t.size_y t.target ≡ true
    pub mates : AreOnBoard t.teammates
    pub enemies : AreOnBoard t.enemies
    pub stances : All (λ enemy. is_named enemy.stance ≡ true) t.enemies
