-- ===== src/Tournament/Tests.antt =====
-- Runs of the battles with the players of HW2/player_status.txt, and the theorems at concrete inputs.
use system_programming_hw.Common.{◌<◌, ℕ, ◌⊎◌, ◌≡◌, refl, some, arith}
use system_programming_hw.Common.Int.{pos, ◌+ℤ◌, ◌-ℤ◌, ◌*ℤ◌, wrap32}
use system_programming_hw.Tournament.Battle.{Status, fire, grass, fight}
use system_programming_hw.Tournament.Battle.Rounds.{IsReady, Wins}
use system_programming_hw.Tournament.Battle.Ends.{Decided, entered, fight-Decided}
use system_programming_hw.Tournament.Tree.{which_agent, which_target, parent, child}
use system_programming_hw.Tournament.Tree.Laws.{Reports, child-Reports}
use system_programming_hw.Tournament.Tree.Agents.{Climbs, enters, wins, Climbs-agent}
use system_programming_hw.Tournament.Player.{react, answers}
use system_programming_hw.Tournament.Player.Heals.{Recovers, react-Recovers}

abbrev player_0 : Status
player_0 = record {
  real_player_id = 0;
  hp = pos 7;
  atk = pos 2;
  attr = fire;
  current_battle_id = 6;
  battle_ended_flag = 0;
}

abbrev player_1 : Status
player_1 = record {
  real_player_id = 1;
  hp = pos 8;
  atk = pos 3;
  attr = grass;
  current_battle_id = 6;
  battle_ended_flag = 0;
}

abbrev player_0_won : Status
player_0_won = record player_0 { hp = pos 4; battle_ended_flag = 1 }

abbrev player_1_lost : Status
player_1_lost = record player_1 { hp = pos 0; battle_ended_flag = 1 }

player_0-IsReady : IsReady player_0
player_0-IsReady = record {
  living = omega arith;
  hp_bound = omega arith;
  attack = omega arith;
  atk_bound = omega arith;
  unended = refl;
}

player_1-IsReady : IsReady player_1
player_1-IsReady = record {
  living = omega arith;
  hp_bound = omega arith;
  attack = omega arith;
  atk_bound = omega arith;
  unended = refl;
}

fight-Decided_example :
    Decided (entered 6 player_0) (entered 6 player_1) (fight 7 6 player_0 player_1)
fight-Decided_example =
    fight-Decided 7 6 player_0 player_1 (omega arith) player_0-IsReady player_1-IsReady
      (omega arith)

child-Reports_example : Reports 2 (child 2 1)
child-Reports_example = child-Reports 2 1 (omega arith) (omega arith)

fight_run : fight 7 6 player_0 player_1 ≡ some (0, player_0_won, player_1_lost)
unfolding fight wrap32 ◌-ℤ◌ ◌*ℤ◌
fight_run = refl

win_0 : Wins player_0_won player_1_lost player_0 player_1
win_0 = record {
  over = refl;
  over_too = refl;
  lives = omega arith;
  kept = omega arith;
  fallen = refl;
  same = record { same_player = refl; same_attack = refl; same_battle = refl };
  loser_same = record { same_player = refl; same_attack = refl; same_battle = refl };
}

react_run :
    react (pos 7) player_0_won ≡ answers (record player_0 { hp = pos 5; battle_ended_flag = 0 })
unfolding react wrap32 ◌+ℤ◌ ◌-ℤ◌
react_run = refl

react-Recovers_example : Recovers (pos 7) player_0 player_0_won (react (pos 7) player_0_won)
react-Recovers_example =
    react-Recovers (pos 7) player_0 player_1 player_0_won player_1_lost player_0-IsReady
      (omega arith) (omega arith) win_0 (ground arith)

climb_of_6 : Climbs 6 1
unfolding which_target parent
climb_of_6 = wins (wins (enters refl) refl) refl

Climbs-agent_example : (◌≡◌ {A = ℕ} 1 0) ⊎ ((m : ℕ) × (which_agent 1 ≡ some m) × (7 < m) × (m < 15))
Climbs-agent_example = Climbs-agent 6 1 (omega arith) climb_of_6
