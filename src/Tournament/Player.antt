-- ===== src/Tournament/Player.antt =====
-- HW2/player.c: the answers of a player in `main`.
pub mod Heals
use system_programming_hw.Common.{
  ℕ, Bool, true, false, not, ◌&&◌, Option, none, some, ◌==◌, leb, if◌then◌else◌, ◌>>=◌,
}
use system_programming_hw.Common.Int.{ℤ, pos, half, ◌+ℤ◌, ◌-ℤ◌, wrap32}
use system_programming_hw.Tournament.Battle.{Status, alive}
use system_programming_hw.Tournament.Tree.{which_agent}

-- `(origin_HP - HP) / 2 + HP`.
unfoldable pub healed : (origin_hp hp : ℤ) → ℤ
healed origin_hp hp = wrap32 (half (wrap32 (origin_hp -ℤ hp)) +ℤ hp)

-- What a message to the player leads to: an answer, the end of the champion, or the end of the
-- loops of a player that has lost.
pub data Reaction : Type 0 where
  answers : Status → Reaction
  champion : Reaction
  loses : Status → Reaction

-- A turn of the two `while` loops. Battle `A` is 0.
unfoldable pub react : (origin_hp : ℤ) → Status → Reaction
unfolding healed
react origin_hp s =
    if not (s.battle_ended_flag == 1)
    then answers s
    else if not (alive s)
    then loses s
    else if s.current_battle_id == 0
    then champion
    else answers (record s { battle_ended_flag = 0; hp = healed origin_hp s.hp })

-- What a player does that has lost: a real player passes its status on to an agent, with the HP it
-- began with, unless it has lost in battle `A`.
unfoldable pub pass_on : (id : ℕ) (origin_hp : ℤ) → Status → Option (ℕ × Status)
pass_on id origin_hp s =
    if not (s.current_battle_id == 0) && leb id 7
    then (which_agent s.current_battle_id >>= λ agent.
        some (agent, record s { hp = origin_hp; battle_ended_flag = 0 }))
    else none
