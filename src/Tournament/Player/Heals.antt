-- ===== src/Tournament/Player/Heals.antt =====
-- The winner of a battle is ready for the next one.
use system_programming_hw.Common.{ℕ, ◌≤◌, ◌<◌, ◌≡◌, ◌≢◌, refl, true, arith, ◌+◌, ◌/◌}
use system_programming_hw.Common.Int.{ℤ, pos, negsuc, ◌+ℤ◌, ◌-ℤ◌, wrap32, pos_part}
use system_programming_hw.Tournament.Battle.{Status, alive}
use system_programming_hw.Tournament.Battle.Rounds.{IsReady, Wins}
use system_programming_hw.Tournament.Battle.Ends.{alive_iff}
use system_programming_hw.Tournament.Player.{healed, Reaction, answers, react}

-- The HP after healing are half of the way back to those at the beginning.
pub healed_lem : (o h : ℕ) → h ≤ o → o < 1073741824 → healed (pos o) (pos h) ≡ pos ((o + h) / 2)
unfolding healed wrap32 ◌+ℤ◌ ◌-ℤ◌
healed_lem o h le b = ground arith

healed_between :
    (o h : ℤ)
    → 0 < pos_part h
    → pos_part h ≤ pos_part o
    → pos_part o < 1073741824
    → (pos_part h ≤ pos_part (healed o h)) × (pos_part (healed o h) ≤ pos_part o)
healed_between (pos o) (pos h) p le b = rw (healed_lem o h le b) (omega arith, omega arith)
healed_between (pos o) (negsuc h) p le b = absurd (omega arith)
healed_between (negsuc o) h p le b = absurd (omega arith)

-- What a winner sends up: the same player with the same attack, ready, with at least the HP that it
-- had and at most those it began with.
pub record Recovers (origin_hp : ℤ) (before winner : Status) (r : Reaction) : Type 0 where
  pub after : Status
  pub answered : r ≡ answers after
  pub ready : IsReady after
  pub gains : pos_part winner.hp ≤ pos_part after.hp
  pub limit : pos_part after.hp ≤ pos_part origin_hp
  pub same_player : after.real_player_id ≡ before.real_player_id

react_lem :
    (origin_hp : ℤ) (w : Status)
    → w.battle_ended_flag ≡ 1
    → alive w ≡ true
    → w.current_battle_id ≢ 0
    → react origin_hp w ≡ answers (record w { battle_ended_flag = 0; hp = healed origin_hp w.hp })
unfolding react
react_lem origin_hp w over lives low = rw (over, lives) (ground arith)

-- The winner of any battle below `A`, told that it has ended, answers with the status of the same
-- player, ready for another battle, with at least the HP that it had left and at most those that it
-- began with, which are below 2^30.
pub react-Recovers :
    (origin_hp : ℤ) (before other winner loser : Status)
    → IsReady before
    → pos_part before.hp ≤ pos_part origin_hp
    → pos_part origin_hp < 1073741824
    → Wins winner loser before other
    → winner.current_battle_id ≢ 0
    → Recovers origin_hp before winner (react origin_hp winner)
react-Recovers origin_hp before other winner loser r within bound w low =
    let (gains, limit) = healed_between origin_hp winner.hp w.lives (omega (arith, w.kept)) bound in
    record {
      after = record winner { battle_ended_flag = 0; hp = healed origin_hp winner.hp };
      answered = react_lem origin_hp winner w.over (alive_iff winner w.lives) low;
      ready = record {
        living = omega (arith, w.lives);
        hp_bound = omega arith;
        attack = rw w.same.same_attack r.attack;
        atk_bound = rw w.same.same_attack r.atk_bound;
        unended = refl;
      };
      gains = gains;
      limit = limit;
      same_player = w.same.same_player;
    }
