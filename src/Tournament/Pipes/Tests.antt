-- ===== src/Tournament/Pipes/Tests.antt =====
-- A run of battle G of HW2 with two players, to its end.
use system_programming_hw.Common.{refl, [], arith}
use system_programming_hw.Common.Int.{pos, negsuc, ◌-ℤ◌, ◌*ℤ◌, wrap32}
use system_programming_hw.Tournament.Battle.{Status, fire, grass, fight, play}
use system_programming_hw.Tournament.Battle.Rounds.{IsReady}
use system_programming_hw.Tournament.Pipes.{
  leaves, Match, over, player_step, battle_step, battle_goes, zero_goes, one_goes, begun, Run,
  start, later,
}
use system_programming_hw.Tournament.Pipes.Result.{Comes, Run-Comes}

abbrev weak : Status
weak = record {
  real_player_id = 0;
  hp = pos 1;
  atk = pos 2;
  attr = fire;
  current_battle_id = 0;
  battle_ended_flag = 0;
}

abbrev other : Status
other = record {
  real_player_id = 1;
  hp = pos 3;
  atk = pos 3;
  attr = grass;
  current_battle_id = 0;
  battle_ended_flag = 0;
}

weak-IsReady : IsReady weak
weak-IsReady = record {
  living = omega arith;
  hp_bound = omega arith;
  attack = omega arith;
  atk_bound = omega arith;
  unended = refl;
}

other-IsReady : IsReady other
other-IsReady = record {
  living = omega arith;
  hp_bound = omega arith;
  attack = omega arith;
  atk_bound = omega arith;
  unended = refl;
}

abbrev won : Status
won = record weak { current_battle_id = 6; battle_ended_flag = 1 }

abbrev lost : Status
lost = record other { hp = negsuc 0; current_battle_id = 6; battle_ended_flag = 1 }

abbrev last : Match
last = record {
  phase = over 0;
  zero_status = won;
  one_status = lost;
  zero_line = record { down = []; up = []; player = leaves won };
  one_line = record { down = []; up = []; player = leaves lost };
}

-- The second player is the first to write; the first is told the end before the battle writes to
-- the second.
all_steps : Run 6 0 (begun weak weak weak other) 10 last
unfolding player_step battle_step play wrap32 ◌-ℤ◌ ◌*ℤ◌
all_steps =
    let r₁ = later start (one_goes refl) in
    let r₂ = later r₁ (zero_goes refl) in
    let r₃ = later r₂ (battle_goes refl) in
    let r₄ = later r₃ (battle_goes refl) in
    let r₅ = later r₄ (battle_goes refl) in
    let r₆ = later r₅ (battle_goes refl) in
    let r₇ = later r₆ (zero_goes refl) in
    let r₈ = later r₇ (battle_goes refl) in
    let r₉ = later r₈ (one_goes refl) in later r₉ (battle_goes refl)

Run-Comes_example : Comes 6 0 1 (fight 1 6 weak other) 10 last
Run-Comes_example = Run-Comes refl weak-IsReady other-IsReady all_steps
