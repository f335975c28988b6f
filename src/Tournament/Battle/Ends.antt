-- ===== src/Tournament/Battle/Ends.antt =====
-- Every battle ends, with one winner.
use system_programming_hw.Common.{
  ℕ, zero, suc, ◌≤◌, ◌<◌, ◌≡◌, refl, true, false, Option, some, arith, inl, inr, Bool-cases, List,
  [], ◌∷◌, length, get_elem?,
}
use system_programming_hw.Common.Int.{pos_part}
use system_programming_hw.Tournament.Battle.{Status, alive, play, rounds, fight, attr_table}
use system_programming_hw.Tournament.Battle.Rounds.{
  IsReady, Alike-trans, beaten, Wins, Weaker, Fought, first_wins, second_wins, goes_on, play-Fought,
}

-- What `rounds` returns: the winner by its index, and the statuses.
pub data Decided (a b : Status) : Option (ℕ × Status × Status) → Type 0 where
  zero_wins : (a' b' : Status) → Wins a' b' a b → Decided a b (some (0, a', b'))
  one_wins : (a' b' : Status) → Wins b' a' b a → Decided a b (some (1, a', b'))

Wins-before :
    {winner loser m n before loser_before : Status}
    → Weaker m before
    → Weaker n loser_before
    → Wins winner loser m n
    → Wins winner loser before loser_before
Wins-before f s w = record {
  over = w.over;
  over_too = w.over_too;
  lives = w.lives;
  kept = omega (arith, w.kept, f.less);
  fallen = w.fallen;
  same = Alike-trans w.same f.same;
  loser_same = Alike-trans w.loser_same s.same;
}

Decided-before :
    {a b m n : Status} (r : Option (ℕ × Status × Status))
    → Weaker m a
    → Weaker n b
    → Decided m n r
    → Decided a b r
Decided-before r la lb (zero_wins a' b' w) = zero_wins a' b' (Wins-before la lb w)
Decided-before r la lb (one_wins a' b' w) = one_wins a' b' (Wins-before lb la w)

pub alive_iff : (s : Status) → 0 < pos_part s.hp → alive s ≡ true
alive_iff s h = elim (Bool-cases (alive s)) [
  | inl e ↦ e
  | inr e ↦ absurd (omega (arith, beaten s e))
]

fallen_lem : (s : Status) → pos_part s.hp ≡ 0 → alive s ≡ false
fallen_lem s h = ground arith

decide :
    (fuel attr : ℕ) (a b : Status)
    → Fought a b (play attr a b).0 (play attr a b).1
    → (Weaker (play attr a b).0 a
        → Weaker (play attr a b).1 b
        → Decided a b (rounds fuel attr (play attr a b).0 (play attr a b).1))
    → Decided a b (rounds (suc fuel) attr a b)
unfolding rounds
decide fuel attr a b (first_wins w) later =
    rw (w.over, alive_iff (play attr a b).0 w.lives)
      (zero_wins (play attr a b).0 (play attr a b).1 w)
decide fuel attr a b (second_wins w) later =
    rw (w.over_too, fallen_lem (play attr a b).0 w.fallen)
      (one_wins (play attr a b).0 (play attr a b).1 w)
decide fuel attr a b (goes_on f s) later = rw f.ready.unended (later f s)

rounds-Decided :
    (fuel attr : ℕ) (a b : Status)
    → IsReady a
    → IsReady b
    → pos_part a.hp ≤ fuel
    → Decided a b (rounds fuel attr a b)
rounds-Decided zero attr a b ra rb enough = absurd (omega (arith, ra.living))
rounds-Decided (suc fuel) attr a b ra rb enough =
    decide fuel attr a b (play-Fought attr a b ra rb) (λ f s.
      Decided-before (rounds fuel attr (play attr a b).0 (play attr a b).1) f s (
        rounds-Decided fuel attr (play attr a b).0 (play attr a b).1 f.ready s.ready
          (omega (arith, f.less))))

-- The children are told in which battle they are.
abbrev pub entered : ℕ → Status → Status
entered id s = record s { current_battle_id = id }

pub entered-IsReady : (id : ℕ) (s : Status) → IsReady s → IsReady (entered id s)
entered-IsReady id s r = record {
  living = r.living;
  hp_bound = r.hp_bound;
  attack = r.attack;
  atk_bound = r.atk_bound;
  unended = r.unended;
}

entry : (xs : List ℕ) (i : ℕ) → i < length xs → (x : ℕ) × (get_elem? xs i ≡ some x)
entry [] i h = absurd (omega arith)
entry (x ∷ xs) zero h = (x, refl)
entry (x ∷ xs) (suc i) h = entry xs i (omega arith)

-- Each of the 14 battles, between two living players whose HP are below 2^30 and whose attacks are
-- positive and below 2^29, ends within as many rounds as status 0 has HP. The index that it gives is
-- that of a player whose HP are positive and no more than before; the other has none left, both are
-- told that the battle has ended, and both keep their id and attack and the id of the battle.
pub fight-Decided :
    (fuel id : ℕ) (a b : Status)
    → id < 14
    → IsReady a
    → IsReady b
    → pos_part a.hp ≤ fuel
    → Decided (entered id a) (entered id b) (fight fuel id a b)
unfolding fight
fight-Decided fuel id a b known ra rb enough =
    let (attr, e) = entry attr_table id known in
    rw e (
      rounds-Decided fuel attr (entered id a) (entered id b) (entered-IsReady id a ra)
        (entered-IsReady id b rb) enough)
