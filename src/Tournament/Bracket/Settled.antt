-- ===== src/Tournament/Bracket/Settled.antt =====
-- What holds of the players of a battle, and how they enter the next one.
use system_programming_hw.Common.{
  ℕ, ◌<◌, ◌≤◌, ◌≡◌, ◌≢◌, refl, sym, ◌∙◌, Bool, true, false, Option, some, arith, ◌>>=◌,
}
use system_programming_hw.Common.Int.{pos_part}
use system_programming_hw.Tournament.Battle.{Status}
use system_programming_hw.Tournament.Battle.Rounds.{IsReady, Wins}
use system_programming_hw.Tournament.Tree.{which_agent}
use system_programming_hw.Tournament.Player.{answers, react, pass_on}
use system_programming_hw.Tournament.Player.Heals.{react-Recovers}
use system_programming_hw.Tournament.Bracket.{Side, risen, replaced}
use system_programming_hw.Tournament.Bracket.Tables.{rank, has_agent}

pub rank_root : rank 0 < 6
unfolding rank
rank_root = omega arith

-- A player that enters a battle; where `real` holds, its process is one of the first eight.
pub record Enters (real : Bool) (o : Option Side) : Type 0 where
  pub side : Side
  pub is : o ≡ some side
  pub ready : IsReady side.status
  pub within : pos_part side.status.hp ≤ pos_part side.origin
  pub bound : pos_part side.origin < 1073741824
  pub id : side.status.real_player_id < 8
  pub process : real ≡ true → side.process < 8

-- What holds of both players after battle `b`.
pub record Stands (b : ℕ) (s : Side) : Type 0 where
  pub before : Status
  pub ready : IsReady before
  pub within : pos_part before.hp ≤ pos_part s.origin
  pub bound : pos_part s.origin < 1073741824
  pub id : s.status.real_player_id < 8
  pub place : s.status.current_battle_id ≡ b
  pub attack : s.status.atk ≡ before.atk
  pub process : has_agent b ≡ true → s.process < 8

pub record Settled (b : ℕ) (o : Option (Side × Side)) : Type 0 where
  pub winner : Side
  pub loser : Side
  pub is : o ≡ some (winner, loser)
  pub won : Stands b winner
  pub lost : Stands b loser
  pub before : Status
  pub other : Status
  pub ready : IsReady before
  pub within : pos_part before.hp ≤ pos_part winner.origin
  pub wins : Wins winner.status loser.status before other

risen_lem :
    (w : Side) {s : Status}
    → react w.origin w.status ≡ answers s
    → risen w ≡ some (record w { status = s })
unfolding risen
risen_lem w e = rw (e, risen) refl

-- The winner of a battle but `A` enters the battle above.
pub risen-Enters :
    (real : Bool) (b : ℕ) (o : Option (Side × Side))
    → b ≢ 0
    → (real ≡ true → has_agent b ≡ true)
    → Settled b o
    → Enters real (o >>= λ (w, l). risen w)
risen-Enters real b o below r s =
    let w = s.winner in
    let h =
      react-Recovers w.origin s.before s.other w.status s.loser.status s.ready s.within s.won.bound
        s.wins (λ e. below (sym s.won.place ∙ e)) in
    record {
      side = record w { status = h.after };
      is = rw (s.is, risen_lem w h.answered) refl;
      ready = h.ready;
      within = h.limit;
      bound = s.won.bound;
      id = rw (h.same_player ∙ sym s.wins.same.same_player) s.won.id;
      process = λ e. s.won.process (r e);
    }

-- The agent for the loser of a battle enters its own battle.
pub replaced-Enters :
    (n b : ℕ) (o : Option (Side × Side))
    → b ≢ 0
    → which_agent b ≡ some n
    → Settled b o
    → Enters false (o >>= λ (w, l). replaced n l)
unfolding replaced pass_on
replaced-Enters n b o below agent s =
    let l = s.loser in
    let t = record l.status { hp = l.origin; battle_ended_flag = 0 } in
    record {
      side = record { process = n; origin = l.origin; status = t };
      is =
          rw (s.is, s.lost.place, agent)
            (ground (arith, s.lost.process (rw (agent, has_agent) refl)));
      ready = record {
        living = omega (arith, s.lost.ready.living, s.lost.within);
        hp_bound = s.lost.bound;
        attack = rw s.lost.attack s.lost.ready.attack;
        atk_bound = rw s.lost.attack s.lost.ready.atk_bound;
        unended = refl;
      };
      within = omega arith;
      bound = s.lost.bound;
      id = s.lost.id;
      process = λ e. cc;
    }
