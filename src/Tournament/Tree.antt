-- ===== src/Tournament/Tree.antt =====
-- The tree of battles: the tables of HW2/battle.c, and `which_target` and `which_agent` of
-- HW2/player.c. A battle stands for its letter by the distance from `A`.
pub mod Laws
pub mod Agents
use system_programming_hw.Common.{
  ℕ, zero, suc, ◌-◌, Bool, List, [], ◌∷◌, Option, none, some, ltb, if◌then◌else◌, get_elem?, ◌>>=◌,
}
use system_programming_hw.Text.{codes}

-- `parent_table`, from its second entry on.
abbrev pub parent_table : List ℕ
parent_table = codes "AABBCDDEEFFKL"

abbrev pub battle_num : List ℕ
battle_num = 2 ∷ 2 ∷ 1 ∷ 2 ∷ 2 ∷ 2 ∷ 0 ∷ 0 ∷ 0 ∷ 0 ∷ 1 ∷ 1 ∷ 0 ∷ 0 ∷ []

abbrev pub child_name : List (List ℕ)
child_name =
    codes "BC"
    ∷ codes "DE"
    ∷ codes "Fo"
    ∷ codes "GH"
    ∷ codes "IJ"
    ∷ codes "KL"
    ∷ codes "ab"
    ∷ codes "cd"
    ∷ codes "ef"
    ∷ codes "gh"
    ∷ codes "Mk"
    ∷ codes "Nn"
    ∷ codes "ij"
    ∷ codes "lm"
    ∷ []

-- What a battle starts: `execl` of the program and its argument.
pub data Child : Type 0 where
  battle : ℕ → Child
  player : ℕ → Child

-- The child `i` of a battle; `none` is outside of the tables.
unfoldable pub child : ℕ → ℕ → Option Child
child id i = do
  names ← get_elem? child_name id
  name ← get_elem? names i
  battles ← get_elem? battle_num id
  some (if ltb i battles then battle (name - 65) else player (name - 97))

-- The parent of a battle; `A` has none.
unfoldable pub parent : ℕ → Option ℕ
parent zero = none
parent (suc k) = get_elem? parent_table k >>= λ c. some (c - 65)

-- `which_target`, by player; `none` is the end of the function without a `return`.
unfoldable pub which_target : ℕ → Option ℕ
which_target id = get_elem? (codes "GGHHIIJJMMKNNLC") id >>= λ c. some (c - 65)

-- `which_agent`, by battle.
unfoldable pub which_agent : ℕ → Option ℕ
which_agent id = get_elem? agents id >>= λ agent. agent
  where
    agents : List (Option ℕ)
    agents =
        none ∷ some 14 ∷ none ∷ some 10 ∷ some 13 ∷ none ∷ some 8 ∷ some 11 ∷ some 9 ∷ some 12 ∷ []
