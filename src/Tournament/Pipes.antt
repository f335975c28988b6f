-- ===== src/Tournament/Pipes.antt =====
-- A battle of HW2/battle.c and the two players below it as processes with pipes between them, each
-- of which goes on when it can.
pub mod Tokens
pub mod Inv
pub mod Actions
pub mod Progress
pub mod Result
mod Tests
use system_programming_hw.Common.{
  ℕ, zero, suc, ◌≡◌, Bool, true, false, List, [], ◌∷◌, ◌++◌, Option, none, some, ◌==◌,
  if◌then◌else◌,
}
use system_programming_hw.Tournament.Battle.{Status, alive, play}

-- A player of HW2/player.c until its battle has ended: it waits for a message, has one to write, or
-- has been told the end.
pub data Activity : Type 0 where
  awaits : Activity
  writes : Status → Activity
  leaves : Status → Activity

-- A child of the battle, with the pipe to it (`p1`) and the pipe from it (`p2`).
pub record Line : Type 0 where
  pub down : List Status
  pub up : List Status
  pub player : Activity

-- `battle_ended_flag == 1`.
abbrev pub is_over : Status → Bool
is_over s = s.battle_ended_flag == 1

-- The inner `while` of a player: what it reads it writes back, unless the battle has ended. With
-- nothing to read it waits.
unfoldable pub player_turn : List Status → List Status → Activity → Option Line
player_turn [] up awaits = none
player_turn (s ∷ down) up awaits =
    some (record { down = down; up = up; player = if is_over s then leaves s else writes s })
player_turn down up (writes s) = some (record { down = down; up = up ++ s ∷ []; player = awaits })
player_turn down up (leaves s) = none

unfoldable pub player_step : Line → Option Line
unfolding player_turn
player_step l = player_turn l.down l.up l.player

-- Where `main` of the battle is: before the first `myread` from child 0 or 1, before `play`, before
-- a `mywrite`, before the test of the flag, before a later `myread`, or behind the loop.
pub data Phase : Type 0 where
  greets_zero : Phase
  greets_one : Phase
  plays : Phase
  writes_zero : Phase
  writes_one : Phase
  tests : Phase
  reads_zero : Phase
  reads_one : Phase
  over : (win : ℕ) → Phase

-- `status[0]`, `status[1]` and the two children.
pub record Match : Type 0 where
  pub phase : Phase
  pub zero_status : Status
  pub one_status : Status
  pub zero_line : Line
  pub one_line : Line

-- `read` from a child: the message and what is left, or `none` while there is none.
abbrev pub receive : Line → Option (Status × Line)
receive l = elim l.up [ [] ↦ none | s ∷ up ↦ some (s, record l { up = up }) ]

-- `write` to a child.
abbrev pub transmit : Status → Line → Line
transmit s l = record l { down = l.down ++ s ∷ [] }

-- A child that has been started: its pipes are empty, and it is about to write its status.
abbrev pub opened : Status → Line
opened s = record { down = []; up = []; player = writes s }

-- The battle before it hears of its children; what is in `status` then is of no account.
abbrev pub begun : (left right a b : Status) → Match
begun left right a b = record {
  phase = greets_zero;
  zero_status = left;
  one_status = right;
  zero_line = opened a;
  one_line = opened b;
}

-- `status[i].current_battle_id = id`.
abbrev pub tagged : ℕ → Status → Status
tagged id s = record s { current_battle_id = id }

module _ (id attr : ℕ) where
  -- The next action of the battle; `none` where it waits for a child or has left the loop.
  unfoldable pub act : Phase → Match → Option Match
  unfolding play
  act greets_zero m = elim (receive m.zero_line) [
    | none ↦ none
    | some (s, l) ↦ some (record m { phase = greets_one; zero_status = tagged id s; zero_line = l })
  ]
  act greets_one m = elim (receive m.one_line) [
    | none ↦ none
    | some (s, l) ↦ some (record m { phase = plays; one_status = tagged id s; one_line = l })
  ]
  act plays m =
      let after = play attr m.zero_status m.one_status in
      some (record m { phase = writes_zero; zero_status = after.0; one_status = after.1 })
  act writes_zero m =
      some (record m { phase = writes_one; zero_line = transmit m.zero_status m.zero_line })
  act writes_one m = some (record m { phase = tests; one_line = transmit m.one_status m.one_line })
  act tests m = some (record m {
    phase =
        if is_over m.zero_status then over (if alive m.zero_status then 0 else 1) else reads_zero;
  })
  act reads_zero m = elim (receive m.zero_line) [
    | none ↦ none
    | some (s, l) ↦ some (record m { phase = reads_one; zero_status = s; zero_line = l })
  ]
  act reads_one m = elim (receive m.one_line) [
    | none ↦ none
    | some (s, l) ↦ some (record m { phase = plays; one_status = s; one_line = l })
  ]
  act (over win) m = none

  unfoldable pub battle_step : Match → Option Match
  unfolding act
  battle_step m = act m.phase m

  -- One of the three processes goes on.
  pub data Step (m : Match) : Match → Type 0 where
    battle_goes : {n : Match} → battle_step m ≡ some n → Step m n
    zero_goes : {l : Line} → player_step m.zero_line ≡ some l → Step m (record m { zero_line = l })
    one_goes : {l : Line} → player_step m.one_line ≡ some l → Step m (record m { one_line = l })

  -- A run of `n` steps.
  pub data Run (m : Match) : ℕ → Match → Type 0 where
    start : Run m zero m
    later : {n : ℕ} {t u : Match} → Run m n t → Step t u → Run m (suc n) u
