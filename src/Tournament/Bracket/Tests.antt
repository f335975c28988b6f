-- ===== src/Tournament/Bracket/Tests.antt =====
-- The tournament of the players of HW2/player_status.txt, and its theorems at concrete inputs.
use system_programming_hw.Common.{
  ℕ, zero, suc, ◌≡◌, ◌<◌, refl, List, [], ◌∷◌, ◌++◌, some, arith, not, true, false,
}
use system_programming_hw.Common.Int.{ℤ, pos, wrap32, ◌+ℤ◌, ◌-ℤ◌, ◌*ℤ◌}
use system_programming_hw.Text.{show_int, codes}
use system_programming_hw.Tournament.Battle.{Status, grass}
use system_programming_hw.Tournament.Battle.Rounds.{IsReady}
use system_programming_hw.Tournament.Roster.{Row, read_status}
use system_programming_hw.Tournament.Tree.{child}
use system_programming_hw.Tournament.Player.{react}
use system_programming_hw.Tournament.Bracket.{champion_of}
use system_programming_hw.Tournament.Bracket.Champion.{champion_of-player}
use system_programming_hw.Tournament.Relay.{
  player_write, status_text, child_name_of, Process, Player, relay, mywrite, myread, pipe_line,
  battle_name,
}
use system_programming_hw.Tournament.Relay.Laws.{goes_on, relay-react, pipe-logs}

abbrev row : ℕ → ℕ → List ℕ → ℕ → Row
row h a w c = record { hp = pos h; atk = pos a; word = w; letter = c; flag = 0 }

abbrev rows : List Row
rows =
    row 7 2 (codes "FIRE") 71
    ∷ row 8 3 (codes "GRASS") 71
    ∷ row 4 4 (codes "FIRE") 72
    ∷ row 1 4 (codes "GRASS") 72
    ∷ row 12 2 (codes "WATER") 73
    ∷ row 3 4 (codes "GRASS") 73
    ∷ row 7 3 (codes "WATER") 74
    ∷ row 10 2 (codes "WATER") 74
    ∷ []

champion_run : champion_of rows ≡ some 0
unfolding champion_of read_status wrap32 ◌+ℤ◌ ◌-ℤ◌ ◌*ℤ◌ react
champion_run = refl

rows-IsReady : (n : ℕ) → n < 8 → IsReady (read_status n rows)
unfolding read_status
rows-IsReady zero h = ground arith
rows-IsReady (suc zero) h = ground arith
rows-IsReady (suc (suc zero)) h = ground arith
rows-IsReady (suc (suc (suc zero))) h = ground arith
rows-IsReady (suc (suc (suc (suc zero)))) h = ground arith
rows-IsReady (suc (suc (suc (suc (suc zero))))) h = ground arith
rows-IsReady (suc (suc (suc (suc (suc (suc zero)))))) h = ground arith
rows-IsReady (suc (suc (suc (suc (suc (suc (suc zero))))))) h = ground arith
rows-IsReady (suc (suc (suc (suc (suc (suc (suc (suc n)))))))) h = absurd (omega arith)

champion_of-player_example : (n : ℕ) × (champion_of rows ≡ some n) × (n < 8)
champion_of-player_example = champion_of-player rows rows-IsReady

abbrev message : Status
message = record {
  real_player_id = 3;
  hp = pos 2;
  atk = pos 4;
  attr = grass;
  current_battle_id = 1;
  battle_ended_flag = 1;
}

abbrev process : ℕ → ℤ → ℤ → ℤ → Process
process b mypid myppid below = record {
  id = b;
  mypid = mypid;
  myppid = myppid;
  pid = λ i. below;
  status = λ i. message;
  log = [];
}

relay-react_example :
    ((relay 0 message message (process 1 (pos 101) (pos 100) (pos 103))).1 ≡ message)
    × ((relay 0 message message (process 1 (pos 101) (pos 100) (pos 103))).2 ≡ message)
    × ((relay 0 message message (process 1 (pos 101) (pos 100) (pos 103))).3
        ≡ not (goes_on (react (pos 1) message)))
relay-react_example =
    relay-react 0 message message (process 1 (pos 101) (pos 100) (pos 103)) (pos 1) (λ h. refl)

-- Battle B writes to battle D, with the pids 101 and 103.
abbrev of_b : Process
of_b = process 1 (pos 101) (pos 100) (pos 103)

abbrev of_d : Process
of_d = process 3 (pos 103) (pos 101) (pos 107)

abbrev of_0 : Player
of_0 = record {
  id = 0;
  mypid = pos 109;
  myppid = pos 107;
  target = 6;
  mystatus = message;
  log_file = [];
  log = [];
}

mywrite_run : (mywrite 0 false of_b).0.log ≡ codes "B,101 pipe to D,103 3,2,B,1\n" ∷ []
unfolding mywrite pipe_line status_text child show_int child_name_of
mywrite_run = refl

player_write_run : (player_write of_0).0.log ≡ codes "0,109 pipe to G,107 3,2,B,1\n" ∷ []
unfolding player_write pipe_line status_text show_int
player_write_run = refl

pipe-logs_example :
    ((mywrite 0 false of_b).0.log
      ≡ []
        ++ pipe_line (codes "to") (battle_name 1) (pos 101) (battle_name 3) (pos 103) message ∷ [])
    × ((myread 0 true message of_d).log
        ≡ []
          ++ pipe_line (codes "from") (battle_name 3) (pos 103) (battle_name 1) (pos 101) message
            ∷ [])
unfolding child
pipe-logs_example = pipe-logs 0 0 of_b of_d (omega arith) (omega arith) refl refl refl
