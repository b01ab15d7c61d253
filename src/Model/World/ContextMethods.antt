-- ===== src/Model/World/ContextMethods.antt =====
-- The constructor and the methods of the class PlayerContext (model/PlayerContext.cpp).
use russian_ai_cup.Model.Trooper.{Trooper}
use russian_ai_cup.Model.World.{PlayerContext, World}

-- PlayerContext::PlayerContext(...)
abbrev pub make_player_context : Trooper → World → PlayerContext
make_player_context trooper world = record { trooper = trooper; world = world }

abbrev pub get_trooper : PlayerContext → Trooper
get_trooper c = c.trooper

abbrev pub get_world : PlayerContext → World
get_world c = c.world
