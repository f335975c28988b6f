-- ===== src/Tournament/Tree/Laws.antt =====
-- The tables of the battles and of the players agree.
use system_programming_hw.Common.{ℕ, zero, suc, ◌+◌, ◌<◌, ◌≡◌, refl, Option, none, some, arith}
use system_programming_hw.Tournament.Tree.{Child, battle, player, child, parent, which_target}

-- A property of the first `n` numbers, counted up from `k`.
abbrev pub Each : (k n : ℕ) → (ℕ → Type 0) → Type 0
Each k zero P = Unit
Each k (suc n) P = P k × Each (suc k) n P

Each-at : (P : ℕ → Type 0) (n k j : ℕ) → Each k n P → j < n → P (j + k)
Each-at P zero k j h less = absurd (omega arith)
Each-at P (suc n) k zero h less = let q : k ≡ 0 + k = omega arith in rw q at h.0
Each-at P (suc n) k (suc j) h less =
    let q : j + suc k ≡ suc j + k = omega arith in rw q at (Each-at P n (suc k) j h.1 (omega arith))

pub each_below : (P : ℕ → Type 0) (n j : ℕ) → Each 0 n P → j < n → P j
each_below P n j h less = let q : j + 0 ≡ j = omega arith in rw q at (Each-at P n 0 j h less)

-- The program that a child runs goes by its own table to the battle that has started it.
abbrev pub Reports : ℕ → Option Child → Type 0
Reports b none = ⊥
Reports b (some (battle c)) = parent c ≡ some b
Reports b (some (player n)) = which_target n ≡ some b

all_report : Each 0 14 (λ b. Each 0 2 (λ i. Reports b (child b i)))
unfolding child parent which_target
all_report = (
  (refl, (refl, tt)),
  (
    (refl, (refl, tt)),
    (
      (refl, (refl, tt)),
      (
        (refl, (refl, tt)),
        (
          (refl, (refl, tt)),
          (
            (refl, (refl, tt)),
            (
              (refl, (refl, tt)),
              (
                (refl, (refl, tt)),
                (
                  (refl, (refl, tt)),
                  (
                    (refl, (refl, tt)),
                    (
                      (refl, (refl, tt)),
                      ((refl, (refl, tt)), ((refl, (refl, tt)), ((refl, (refl, tt)), tt))),
                    ),
                  ),
                ),
              ),
            ),
          ),
        ),
      ),
    ),
  ),
)

-- Whatever a battle starts as its child 0 or 1, a battle by `parent_table` or a player by
-- `which_target`, answers to that battle.
pub child-Reports : (b i : ℕ) → b < 14 → i < 2 → Reports b (child b i)
child-Reports b i hb hi =
    each_below (λ i. Reports b (child b i)) 2 i
      (each_below (λ b. Each 0 2 (λ i. Reports b (child b i))) 14 b all_report hb) hi

-- Battle `b` starts this child, and `above` is what the table of the child says.
abbrev pub IsStarted : Child → Option ℕ → Type 0
IsStarted c above = (b : ℕ) × (i : ℕ) × (above ≡ some b) × (child b i ≡ some c)

battles-IsStarted : Each 1 13 (λ c. IsStarted (battle c) (parent c))
unfolding child parent
battles-IsStarted = (
  (0, 0, refl, refl),
  (
    (0, 1, refl, refl),
    (
      (1, 0, refl, refl),
      (
        (1, 1, refl, refl),
        (
          (2, 0, refl, refl),
          (
            (3, 0, refl, refl),
            (
              (3, 1, refl, refl),
              (
                (4, 0, refl, refl),
                (
                  (4, 1, refl, refl),
                  (
                    (5, 0, refl, refl),
                    ((5, 1, refl, refl), ((10, 0, refl, refl), ((11, 0, refl, refl), tt))),
                  ),
                ),
              ),
            ),
          ),
        ),
      ),
    ),
  ),
)

players-IsStarted : Each 0 15 (λ n. IsStarted (player n) (which_target n))
unfolding child which_target
players-IsStarted = (
  (6, 0, refl, refl),
  (
    (6, 1, refl, refl),
    (
      (7, 0, refl, refl),
      (
        (7, 1, refl, refl),
        (
          (8, 0, refl, refl),
          (
            (8, 1, refl, refl),
            (
              (9, 0, refl, refl),
              (
                (9, 1, refl, refl),
                (
                  (12, 0, refl, refl),
                  (
                    (12, 1, refl, refl),
                    (
                      (10, 1, refl, refl),
                      (
                        (13, 0, refl, refl),
                        ((13, 1, refl, refl), ((11, 1, refl, refl), ((2, 1, refl, refl), tt))),
                      ),
                    ),
                  ),
                ),
              ),
            ),
          ),
        ),
      ),
    ),
  ),
)

-- Every battle but `A` is started by its parent, and every player by its target.
pub tree-IsStarted :
    ((c : ℕ) → c < 13 → IsStarted (battle (c + 1)) (parent (c + 1)))
    × ((n : ℕ) → n < 15 → IsStarted (player n) (which_target n))
tree-IsStarted = (
  λ c h. Each-at (λ c. IsStarted (battle c) (parent c)) 13 1 c battles-IsStarted h,
  λ n h. each_below (λ n. IsStarted (player n) (which_target n)) 15 n players-IsStarted h,
)
