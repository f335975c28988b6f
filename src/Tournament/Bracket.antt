-- ===== src/Tournament/Bracket.antt =====
-- HW2 as a whole: which player comes out of each battle of the tree. A process is known by what it
-- has been sent and sends; the pipes between a battle and the processes below it pass messages on
-- unchanged (Tournament/Relay).
pub mod Tables
pub mod Settled
pub mod Champion
mod Tests
use system_programming_hw.Common.{
  ℕ, zero, suc, List, [], ◌∷◌, Option, none, some, leb, ◌==◌, if◌then◌else◌, ◌>>=◌,
}
use system_programming_hw.Common.Int.{ℤ, pos, pos_part}
use system_programming_hw.Tournament.Battle.{Status, fight}
use system_programming_hw.Tournament.Tree.{Child, battle, player, child, which_agent}
use system_programming_hw.Tournament.Roster.{Row, read_status}
use system_programming_hw.Tournament.Player.{Reaction, answers, champion, loses, react, pass_on}

-- A player's process: its `id`, its `origin_HP`, and its status.
pub record Side : Type 0 where
  pub process : ℕ
  pub origin : ℤ
  pub status : Status

-- The battle whose loser an agent takes the place of: the first that `which_agent` sends to it.
abbrev pub feeds_from : ℕ → List ℕ → Option ℕ
feeds_from n [] = none
feeds_from n (b ∷ bs) =
    let later = feeds_from n bs in
    elim (which_agent b) [ none ↦ later | some m ↦ if m == n then some b else later ]

unfoldable pub feeds : ℕ → Option ℕ
unfolding which_agent
feeds n = feeds_from n (1 ∷ 2 ∷ 3 ∷ 4 ∷ 5 ∷ 6 ∷ 7 ∷ 8 ∷ 9 ∷ 10 ∷ 11 ∷ 12 ∷ 13 ∷ [])

-- The winner of a battle, with the status that it sends to the battle above.
unfoldable pub risen : Side → Option Side
risen w = elim (react w.origin w.status) [
  | answers s ↦ some (record w { status = s })
  | champion ↦ none
  | loses s ↦ none
]

-- The agent `n`, with the status that the loser of a battle passes on to it.
unfoldable pub replaced : ℕ → Side → Option Side
unfolding pass_on
replaced n l = pass_on l.process l.origin l.status >>= λ (agent, s).
    if agent == n then some (record { process = n; origin = s.hp; status = s }) else none

module _ (rows : List Row) where
  -- A child of a battle, by the outcomes of other battles.
  unfoldable pub enters : (ℕ → Option (Side × Side)) → Child → Option Side
  unfolding feeds risen replaced read_status
  enters outcomes (battle c) = outcomes c >>= λ (w, l). risen w
  enters outcomes (player n) =
      if leb n 7
      then some
          (record { process = n; origin = (read_status n rows).hp; status = read_status n rows })
      else (feeds n >>= λ b. outcomes b >>= λ (w, l). replaced n l)

  -- The winner and the loser.
  abbrev pub sides : Side → Side → ℕ × Status × Status → Side × Side
  sides a b (win, s, t) =
      if win == 0
      then (record a { status = s }, record b { status = t })
      else (record b { status = t }, record a { status = s })

  -- The battle `id`, of the fuel's depth; as many rounds as the first player has HP are enough.
  unfoldable pub outcome : ℕ → ℕ → Option (Side × Side)
  unfolding enters child fight
  outcome zero id = none
  outcome (suc fuel) id = do
    left ← child id 0
    right ← child id 1
    a ← enters (λ b. outcome fuel b) left
    b ← enters (λ b. outcome fuel b) right
    result ← fight (pos_part a.status.hp) id a.status b.status
    some (sides a b result)

  -- "Champion is P%d": the winner of battle `A`, six battles deep.
  unfoldable pub champion_of : Option ℕ
  unfolding outcome
  champion_of = outcome 6 0 >>= λ (w, l). some w.status.real_player_id
