-- ===== src/Model/Move.antt =====
-- model/Move.h and model/Move.cpp: the order that the strategy gives for one trooper.
pub mod Methods
use russian_ai_cup.Base.{ℤ, pos, negsuc}

pub data ActionType : Type 0 where
  unknown_action end_turn move shoot raise_stance lower_stance throw_grenade : ActionType
  use_medikit eat_field_ration heal request_enemy_disposition : ActionType

abbrev pub action_type_code : ActionType → ℤ
action_type_code unknown_action = negsuc 0
action_type_code end_turn = pos 0
action_type_code move = pos 1
action_type_code shoot = pos 2
action_type_code raise_stance = pos 3
action_type_code lower_stance = pos 4
action_type_code throw_grenade = pos 5
action_type_code use_medikit = pos 6
action_type_code eat_field_ration = pos 7
action_type_code heal = pos 8
action_type_code request_enemy_disposition = pos 9

pub data Direction : Type 0 where
  unknown_direction current_point north east south west : Direction

abbrev pub direction_code : Direction → ℤ
direction_code unknown_direction = negsuc 0
direction_code current_point = pos 0
direction_code north = pos 1
direction_code east = pos 2
direction_code south = pos 3
direction_code west = pos 4

-- `Move`; its setters are updates of the record.
pub record Move : Type 0 where
  pub action : ActionType
  pub direction : Direction
  pub x : ℤ
  pub y : ℤ

-- Move::Move()
abbrev pub new_move : Move
new_move = record { action = end_turn; direction = unknown_direction; x = negsuc 0; y = negsuc 0 }
