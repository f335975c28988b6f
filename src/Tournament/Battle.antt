-- ===== src/Tournament/Battle.antt =====
-- HW2/battle.c: `play`, and the loop of `main` that plays until the battle has ended.
pub mod Rounds
pub mod Ends
use system_programming_hw.Common.{
  ℕ, zero, suc, Bool, true, false, ◌&&◌, ◌||◌, List, [], ◌∷◌, Option, none, some, ◌==◌, ltb,
  if◌then◌else◌, get_elem?, ◌>>=◌,
}
use system_programming_hw.Common.Int.{ℤ, pos, ◌-ℤ◌, ◌*ℤ◌, ltb_ℤ, wrap32, pos_part, neg_part}

pub data Attribute : Type 0 where
  fire : Attribute
  grass : Attribute
  water : Attribute

-- The value of the `enum`.
abbrev pub number : Attribute → ℕ
number fire = 0
number grass = 1
number water = 2

-- `Status` of HW2/status.h. A battle is known by the distance of its
-- letter from `A`.
pub record Status : Type 0 where
  pub real_player_id : ℕ
  pub hp : ℤ
  pub atk : ℤ
  pub attr : Attribute
  pub current_battle_id : ℕ
  pub battle_ended_flag : ℕ

-- `attr_table`, an entry for each battle from `A` on.
abbrev pub attr_table : List ℕ
attr_table = 0 ∷ 1 ∷ 2 ∷ 2 ∷ 0 ∷ 0 ∷ 0 ∷ 1 ∷ 2 ∷ 1 ∷ 1 ∷ 1 ∷ 0 ∷ 2 ∷ []

-- `ATK * (attr of the attacker == attr of the battle ? 2 : 1)`.
unfoldable pub damage : ℕ → Status → ℤ
damage attr s = wrap32 (s.atk *ℤ pos (if number s.attr == attr then 2 else 1))

-- `status[target].HP -= ...`.
unfoldable pub strike : ℕ → (attacker target : Status) → Status
unfolding damage
strike attr attacker target = record target { hp = wrap32 (target.hp -ℤ damage attr attacker) }

abbrev pub ended : Status → Status
ended s = record s { battle_ended_flag = 1 }

-- `HP > 0`.
abbrev pub alive : Status → Bool
alive s = ltb_ℤ (pos 0) s.hp

-- The two strokes of `play`, with the statuses in the order `first`, `second`.
unfoldable pub exchange : ℕ → (first second : Status) → Status × Status
unfolding strike
exchange attr first second =
    let second' = strike attr first second in
    let first' = strike attr second' first in
    if alive second'
    then (if alive first' then (first', second') else (ended first', ended second'))
    else (ended first, ended second')

-- Less HP goes first, and at the same HP the smaller id; otherwise status 1.
abbrev pub zero_first : Status → Status → Bool
zero_first a b =
    ltb_ℤ a.hp b.hp
    || ((pos_part a.hp == pos_part b.hp && neg_part a.hp == neg_part b.hp)
        && ltb a.real_player_id b.real_player_id)

-- `play`, on `status[0]` and `status[1]`.
unfoldable pub play : ℕ → Status → Status → Status × Status
unfolding exchange
play attr a b =
    let there = exchange attr a b in
    let back = exchange attr b a in if zero_first a b then there else (back.1, back.0)

-- The first `while` of `main`: `win` and the statuses at the end. A player returns the status
-- that it was sent, while the battle has not ended.
unfoldable pub rounds : ℕ → ℕ → Status → Status → Option (ℕ × Status × Status)
unfolding play
rounds zero attr a b = none
rounds (suc fuel) attr a b =
    let after = play attr a b in
    let later = rounds fuel attr after.0 after.1 in
    if after.0.battle_ended_flag == 1
    then some (if alive after.0 then 0 else 1, after.0, after.1)
    else later

-- `main` from the first statuses of the two children to the end of the battle: `attr` is the entry of
-- the table, and the children are told in which battle they are.
unfoldable pub fight : ℕ → ℕ → Status → Status → Option (ℕ × Status × Status)
unfolding rounds
fight fuel id a b = get_elem? attr_table id >>= λ attr.
    rounds fuel attr (record a { current_battle_id = id }) (record b { current_battle_id = id })
