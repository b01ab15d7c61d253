-- ===== src/Client/Units.antt =====
-- readTrooper, readTroopers, readPlayers and readBonuses of RemoteProcessClient.cpp.
use russian_ai_cup.Base.{ℕ, zero, suc, pos, negsuc, List, [], ◌∷◌, if◌then◌else◌}
use russian_ai_cup.Model.Units.{Player, Bonus, bonus_type_of}
use russian_ai_cup.Model.Trooper.{Trooper, trooper_type_of, trooper_stance_of}
use russian_ai_cup.Model.Units.BonusMethods.{make_bonus}
use russian_ai_cup.Model.Units.PlayerMethods.{make_player}
use russian_ai_cup.Model.Trooper.Methods.{make_trooper}
use russian_ai_cup.Client.Monad.{Platform, exit, Action, pure, fail, ◌>>=◌, ◌>>◌}
use russian_ai_cup.Client.Scalars.{
  read_enum, read_boolean, read_int, read_long, read_double, read_string,
}

-- `for (i = 0; i < n; ++i) v.push_back(...)`
unfoldable pub repeat : {S A : Type 0} → ℕ → Action S A → Action S (List A)
repeat zero read = pure []
repeat (suc n) read = do a ← read; rest ← repeat n read; pure (a ∷ rest)

module _ {S : Type 0} (p : Platform S) where
  -- A count from the wire; a negative one ends the process.
  unfoldable pub read_count : ℕ → Action S ℕ
  read_count code = do
    count ← read_int p
    elim count [ pos n ↦ pure n | negsuc _ ↦ fail (exit code) ]

  -- `if (!readBoolean()) exit(code);`
  unfoldable pub expect_present : ℕ → Action S (Unit {0})
  expect_present code = do present ← read_boolean p; if present then pure tt else fail (exit code)

  unfoldable pub read_player : Action S Player
  read_player = do
    expect_present 10004
    id ← read_long p
    name ← read_string p
    score ← read_int p
    strategy_crashed ← read_boolean p
    approximate_x ← read_int p
    approximate_y ← read_int p
    pure (make_player id name score strategy_crashed approximate_x approximate_y)

  unfoldable pub read_players : Action S (List Player)
  read_players = do n ← read_count 10003; repeat n read_player

  unfoldable pub read_trooper : Action S Trooper
  read_trooper = do
    expect_present 10006
    id ← read_long p
    x ← read_int p
    y ← read_int p
    player_id ← read_long p
    teammate_index ← read_int p
    teammate ← read_boolean p
    type ← read_enum p
    stance ← read_enum p
    hitpoints ← read_int p
    maximal_hitpoints ← read_int p
    action_points ← read_int p
    initial_action_points ← read_int p
    vision_range ← read_double p
    shooting_range ← read_double p
    shoot_cost ← read_int p
    standing_damage ← read_int p
    kneeling_damage ← read_int p
    prone_damage ← read_int p
    damage ← read_int p
    holding_grenade ← read_boolean p
    holding_medikit ← read_boolean p
    holding_field_ration ← read_boolean p
    pure (
        make_trooper id x y player_id teammate_index teammate (trooper_type_of type)
          (trooper_stance_of stance) hitpoints maximal_hitpoints action_points initial_action_points
          vision_range shooting_range shoot_cost standing_damage kneeling_damage prone_damage damage
          holding_grenade holding_medikit holding_field_ration)

  unfoldable pub read_troopers : Action S (List Trooper)
  read_troopers = do n ← read_count 10005; repeat n read_trooper

  unfoldable pub read_bonus : Action S Bonus
  read_bonus = do
    expect_present 10010
    id ← read_long p
    x ← read_int p
    y ← read_int p
    type ← read_enum p
    pure (make_bonus id x y (bonus_type_of type))

  unfoldable pub read_bonuses : Action S (List Bonus)
  read_bonuses = do n ← read_count 10009; repeat n read_bonus
