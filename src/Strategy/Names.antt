-- ===== src/Strategy/Names.antt =====
-- The debug output's names for actions, types of troopers and stances: the operators << of
-- MyStrategy.cpp, whose `default` is every other value.
use Prim.Native.String.{String}
use russian_ai_cup.Model.Move.{
  ActionType, end_turn, move, shoot, raise_stance, lower_stance, throw_grenade, use_medikit,
  eat_field_ration, heal, request_enemy_disposition,
}
use russian_ai_cup.Model.Trooper.{
  TrooperType, commander, field_medic, soldier, sniper, scout, TrooperStance, prone, kneeling,
  standing, stance_count,
}

abbrev pub action_name : ActionType → String
action_name end_turn = "END_TURN"
action_name move = "MOVE"
action_name shoot = "SHOOT"
action_name raise_stance = "RAISE_STANCE"
action_name lower_stance = "LOWER_STANCE"
action_name throw_grenade = "THROW_GRENADE"
action_name use_medikit = "USE_MEDIKIT"
action_name eat_field_ration = "EAT_FIELD_RATION"
action_name heal = "HEAL"
action_name request_enemy_disposition = "REQUEST_ENEMY_DISPOSITION"
action_name _ = "UNKNOWN_ACTION"

abbrev pub trooper_name : TrooperType → String
trooper_name commander = "COMMANDER"
trooper_name field_medic = "FIELD_MEDIC"
trooper_name soldier = "SOLDIER"
trooper_name sniper = "SNIPER"
trooper_name scout = "SCOUT"
trooper_name _ = "UNKNOWN_TROOPER"

abbrev pub stance_name : TrooperStance → String
stance_name prone = "PRONE"
stance_name kneeling = "KNEELING"
stance_name standing = "STANDING"
stance_name stance_count = "_TROOPER_STANCE_COUNT_"
stance_name _ = "UNKNOWN_STANCE"
