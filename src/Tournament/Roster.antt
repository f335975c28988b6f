-- ===== src/Tournament/Roster.antt =====
-- `read_status` of HW2/player.c.
use system_programming_hw.Common.{
  ℕ, zero, suc, ◌-◌, ◌≡◌, refl, List, [], ◌∷◌, some, get_elem?, if◌then◌else◌,
}
use system_programming_hw.Common.Int.{ℤ, pos}
use system_programming_hw.Text.{codes, same_text}
use system_programming_hw.Tournament.Battle.{Attribute, fire, grass, water, Status}

-- What `fscanf` reads of a line: HP, ATK, a word, a letter and the flag.
pub record Row : Type 0 where
  pub hp : ℤ
  pub atk : ℤ
  pub word : List ℕ
  pub letter : ℕ
  pub flag : ℕ

-- The three `if`: a word that is none of the three leaves the attribute of the line before.
abbrev pub attribute : List ℕ → Attribute → Attribute
unfolding same_text
attribute word before =
    if same_text word (codes "WATER")
    then water
    else if same_text word (codes "GRASS")
    then grass
    else if same_text word (codes "FIRE")
    then fire
    else before

-- The `for` over the lines up to the player's own; after the last line nothing changes.
unfoldable pub scan : ℕ → List Row → Status → Status
unfolding same_text
scan zero rows s = s
scan (suc n) [] s = s
scan (suc n) (r ∷ rows) s = scan n rows (record s {
  hp = r.hp;
  atk = r.atk;
  attr = attribute r.word s.attr;
  current_battle_id = r.letter - 65;
  battle_ended_flag = r.flag;
})

-- The globals are zero at the beginning.
unfoldable pub read_status : ℕ → List Row → Status
unfolding scan
read_status id rows = scan (suc id) rows (record {
  real_player_id = id;
  hp = pos 0;
  atk = pos 0;
  attr = fire;
  current_battle_id = 0;
  battle_ended_flag = 0;
})

-- The values of a status that do not hang on the lines before.
pub record IsRead (id : ℕ) (r : Row) (s : Status) : Type 0 where
  pub same_id : s.real_player_id ≡ id
  pub same_hp : s.hp ≡ r.hp
  pub same_atk : s.atk ≡ r.atk
  pub same_battle : s.current_battle_id ≡ r.letter - 65
  pub same_flag : s.battle_ended_flag ≡ r.flag

scan-IsRead :
    (n : ℕ) (rows : List Row) (s : Status) {r : Row}
    → get_elem? rows n ≡ some r
    → IsRead s.real_player_id r (scan (suc n) rows s)
unfolding scan
scan-IsRead n [] s e = cc
scan-IsRead zero (row ∷ rows) s {r} e =
    let q : row ≡ r = cc in
    rw (← q) (record {
      same_id = refl;
      same_hp = refl;
      same_atk = refl;
      same_battle = refl;
      same_flag = refl;
    })
scan-IsRead (suc n) (row ∷ rows) s e = scan-IsRead n rows _ e

-- A player whose line is in the file has the id, and the HP, the attack, the battle and the flag of
-- that line.
pub read_status-IsRead :
    (id : ℕ) (rows : List Row) {r : Row}
    → get_elem? rows id ≡ some r
    → IsRead id r (read_status id rows)
unfolding read_status
read_status-IsRead id rows e = scan-IsRead id rows _ e

scan_id : (n : ℕ) (rows : List Row) (s : Status) → (scan n rows s).real_player_id ≡ s.real_player_id
unfolding scan
scan_id zero rows s = refl
scan_id (suc n) [] s = refl
scan_id (suc n) (r ∷ rows) s = scan_id n rows _

pub read_status_id : (id : ℕ) (rows : List Row) → (read_status id rows).real_player_id ≡ id
unfolding read_status
read_status_id id rows = scan_id (suc id) rows _
