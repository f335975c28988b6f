-- ===== src/Tournament/Tree/Agents.antt =====
-- The agents that take the places of real players who have lost.
use system_programming_hw.Common.{
  ℕ, zero, suc, ◌<◌, ◌≡◌, refl, Bool, true, false, not, ◌&&◌, ◌||◌, List, [], ◌∷◌, none, some,
  arith, ◌⊎◌, inl, inr, ◌==◌, ltb, get_elem?, length, Option-cases,
}
use system_programming_hw.Tournament.Tree.{parent, which_target, which_agent, parent_table}
use system_programming_hw.Tournament.Tree.Laws.{Each, each_below}

-- The battles in which a player may fight: that of its target, and those above a battle that it
-- has won.
pub data Climbs (n : ℕ) : ℕ → Type 0 where
  enters : {b : ℕ} → which_target n ≡ some b → Climbs n b
  wins : {c b : ℕ} → Climbs n c → parent c ≡ some b → Climbs n b

-- It is battle `A`, or one for which there is an agent.
abbrev may_replace : ℕ → Bool
may_replace b = elim (which_agent b) [ none ↦ b == 0 | some m ↦ ltb 7 m && ltb m 15 ]

abbrev target_ok : ℕ → Bool
target_ok n = elim (which_target n) [ none ↦ false | some b ↦ may_replace b ]

abbrev parent_ok : ℕ → Bool
parent_ok c = elim (parent c) [ none ↦ true | some b ↦ not (may_replace c) || may_replace b ]

targets_ok : Each 0 8 (λ n. target_ok n ≡ true)
unfolding which_target which_agent
targets_ok = (refl, (refl, (refl, (refl, (refl, (refl, (refl, (refl, tt))))))))

parents_ok : Each 0 14 (λ c. parent_ok c ≡ true)
unfolding parent which_agent
parents_ok = (
  refl,
  (
    refl,
    (
      refl,
      (refl, (refl, (refl, (refl, (refl, (refl, (refl, (refl, (refl, (refl, (refl, tt))))))))))),
    ),
  ),
)

get_elem?-within {ℓ} :
    {A : Type ℓ} (xs : List A) (i : ℕ) {x : A} → get_elem? xs i ≡ some x → i < length xs
get_elem?-within [] i e = cc
get_elem?-within (y ∷ xs) zero e = omega arith
get_elem?-within (y ∷ xs) (suc i) e = omega (arith, get_elem?-within xs i e)

parent_within : (c : ℕ) {b : ℕ} → parent c ≡ some b → c < 14
unfolding parent
parent_within zero e = cc
parent_within (suc c) e = elim (Option-cases (get_elem? parent_table c)) [
  | inl n ↦ cc (rw n at e)
  | inr (x, s) ↦ omega (arith, get_elem?-within parent_table c s)
]

Climbs-may_replace : (n b : ℕ) → n < 8 → Climbs n b → may_replace b ≡ true
Climbs-may_replace n b real (enters e) =
    rw (e, target_ok) at (each_below (λ n. target_ok n ≡ true) 8 n targets_ok real)
Climbs-may_replace n b real (wins {c} below e) =
    let ih = Climbs-may_replace n c real below in
    let up = each_below (λ c. parent_ok c ≡ true) 14 c parents_ok (parent_within c e) in
    rw (e, ih, parent_ok) at up

-- Wherever one of the eight real players may fight, it is battle `A`, or `which_agent` names one of
-- the players 8 to 14 to take the place of the loser.
pub Climbs-agent :
    (n b : ℕ)
    → n < 8
    → Climbs n b
    → (b ≡ 0) ⊎ ((m : ℕ) × (which_agent b ≡ some m) × (7 < m) × (m < 15))
Climbs-agent n b real climbs =
    let found = Climbs-may_replace n b real climbs in
    elim (Option-cases (which_agent b)) [
      | inl nobody ↦ inl (ground (arith, rw (nobody, may_replace) at found))
      | inr (m, some_m) ↦ inr (
        m,
        some_m,
        ground (arith, rw (some_m, may_replace) at found),
        ground (arith, rw (some_m, may_replace) at found),
      )
    ]
