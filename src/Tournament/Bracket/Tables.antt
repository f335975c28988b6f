-- ===== src/Tournament/Bracket/Tables.antt =====
-- Where the players of a battle come from: from battles that are nearer to the leaves.
use system_programming_hw.Common.{
  ℕ, ◌<◌, ◌≡◌, refl, Bool, true, false, not, ◌||◌, List, [], ◌∷◌, Option, none, some, ◌⊎◌, inl, inr,
  leb, get_elem?, arith,
}
use system_programming_hw.Tournament.Tree.{Child, battle, player, child, which_agent}
use system_programming_hw.Tournament.Tree.Laws.{Each, each_below}
use system_programming_hw.Tournament.Bracket.{feeds}

abbrev pub ranks : List ℕ
ranks = 5 ∷ 2 ∷ 4 ∷ 1 ∷ 1 ∷ 3 ∷ 0 ∷ 0 ∷ 0 ∷ 0 ∷ 2 ∷ 2 ∷ 1 ∷ 1 ∷ []

-- How many battles deep the tree is below a battle, with the battles of the agents.
unfoldable pub rank : ℕ → ℕ
rank b = elim (get_elem? ranks b) [ none ↦ 0 | some r ↦ r ]

-- A battle below is deeper; a player is a real player, or the agent for a battle that is deeper.
abbrev pub Comes : ℕ → Option Child → Type 0
Comes b none = ⊥
Comes b (some (battle c)) = (c < 14) × (rank c < rank b) × (0 < c)
Comes b (some (player n)) =
    (leb n 7 ≡ true)
    ⊎ ((c : ℕ) × (feeds n ≡ some c)
        × (which_agent c ≡ some n)
        × (c < 14)
        × (rank c < rank b)
        × (0 < c))

all_come : Each 0 14 (λ b. Each 0 2 (λ i. Comes b (child b i)))
unfolding child which_agent feeds rank
all_come = (
  ((omega arith, omega arith, omega arith), ((omega arith, omega arith, omega arith), tt)),
  (
    ((omega arith, omega arith, omega arith), ((omega arith, omega arith, omega arith), tt)),
    (
      (
        (omega arith, omega arith, omega arith),
        (inr (1, refl, refl, omega arith, omega arith, omega arith), tt),
      ),
      (
        ((omega arith, omega arith, omega arith), ((omega arith, omega arith, omega arith), tt)),
        (
          ((omega arith, omega arith, omega arith), ((omega arith, omega arith, omega arith), tt)),
          (
            (
              (omega arith, omega arith, omega arith),
              ((omega arith, omega arith, omega arith), tt),
            ),
            (
              (inl refl, (inl refl, tt)),
              (
                (inl refl, (inl refl, tt)),
                (
                  (inl refl, (inl refl, tt)),
                  (
                    (inl refl, (inl refl, tt)),
                    (
                      (
                        (omega arith, omega arith, omega arith),
                        (inr (3, refl, refl, omega arith, omega arith, omega arith), tt),
                      ),
                      (
                        (
                          (omega arith, omega arith, omega arith),
                          (inr (4, refl, refl, omega arith, omega arith, omega arith), tt),
                        ),
                        (
                          (
                            inr (6, refl, refl, omega arith, omega arith, omega arith),
                            (inr (8, refl, refl, omega arith, omega arith, omega arith), tt),
                          ),
                          (
                            (
                              inr (7, refl, refl, omega arith, omega arith, omega arith),
                              (inr (9, refl, refl, omega arith, omega arith, omega arith), tt),
                            ),
                            tt,
                          ),
                        ),
                      ),
                    ),
                  ),
                ),
              ),
            ),
          ),
        ),
      ),
    ),
  ),
)

pub child-Comes : (b i : ℕ) → b < 14 → i < 2 → Comes b (child b i)
child-Comes b i hb hi =
    each_below (λ i. Comes b (child b i)) 2 i
      (each_below (λ b. Each 0 2 (λ i. Comes b (child b i))) 14 b all_come hb) hi

-- The battle has an agent for its loser.
abbrev pub has_agent : ℕ → Bool
has_agent b = elim (which_agent b) [ none ↦ false | some _ ↦ true ]

-- The child is a real player or a battle between real players.
abbrev pub is_real : Option Child → Bool
is_real none = false
is_real (some (battle c)) = has_agent c
is_real (some (player n)) = leb n 7

all_real : Each 0 14 (λ b. Each 0 2 (λ i. (not (has_agent b) || is_real (child b i)) ≡ true))
unfolding child which_agent
all_real = (
  (refl, (refl, tt)),
  (
    (refl, (refl, tt)),
    (
      (refl, (refl, tt)),
      (
        (refl, (refl, tt)),
        (
          (refl, (refl, tt)),
          (
            (refl, (refl, tt)),
            (
              (refl, (refl, tt)),
              (
                (refl, (refl, tt)),
                (
                  (refl, (refl, tt)),
                  (
                    (refl, (refl, tt)),
                    (
                      (refl, (refl, tt)),
                      ((refl, (refl, tt)), ((refl, (refl, tt)), ((refl, (refl, tt)), tt))),
                    ),
                  ),
                ),
              ),
            ),
          ),
        ),
      ),
    ),
  ),
)

-- In a battle with an agent for its loser only real players meet.
pub child_real : (b i : ℕ) → b < 14 → i < 2 → (not (has_agent b) || is_real (child b i)) ≡ true
child_real b i hb hi =
    each_below (λ i. (not (has_agent b) || is_real (child b i)) ≡ true) 2 i
      (each_below (λ b. Each 0 2 (λ i. (not (has_agent b) || is_real (child b i)) ≡ true)) 14 b
        all_real hb)
      hi
