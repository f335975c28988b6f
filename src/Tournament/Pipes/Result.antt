-- ===== src/Tournament/Pipes/Result.antt =====
-- A battle and its players, whatever the order of their steps: they come to an end, and to the one
-- that `fight` computes.
use system_programming_hw.Common.{
  ℕ, zero, suc, List, [], ◌∷◌, ◌<◌, ◌≤◌, ◌+◌, ◌*◌, ◌≡◌, refl, sym, ap, ◌∙◌, false, Option, some,
  arith, ◌⊎◌, inl, inr, get_elem?, length,
}
use system_programming_hw.Common.Int.{pos_part}
use system_programming_hw.Tournament.Battle.{Status, rounds, fight, attr_table}
use system_programming_hw.Tournament.Battle.Rounds.{IsReady}
use system_programming_hw.Tournament.Battle.Ends.{
  Decided, zero_wins, one_wins, fight-Decided, entered,
}
use system_programming_hw.Tournament.Pipes.{Match, is_over, over, begun, Run, Step}
use system_programming_hw.Tournament.Pipes.Tokens.{held, tokens}
use system_programming_hw.Tournament.Pipes.Inv.{ahead, Inv, starts}
use system_programming_hw.Tournament.Pipes.Progress.{IsSettled, Run-Paid, progress, decided-eq}

-- What a run of `n` steps has come to, where `o` is the outcome of the fight.
pub record Comes (id attr fuel : ℕ) (o : Option (ℕ × Status × Status)) (n : ℕ) (m : Match)
    : Type 0 where
  pub bounded : n ≤ 10 * fuel + 4
  pub goes_on :
      ((t : Match) × Step id attr m t) ⊎ ((r : ℕ × Status × Status) × (o ≡ some r) × IsSettled r m)
  pub answer : (win : ℕ) → m.phase ≡ over win → o ≡ some (win, m.zero_status, m.one_status)

Decided-some :
    {a b : Status} {o : Option (ℕ × Status × Status)}
    → Decided a b o
    → (r : ℕ × Status × Status) × (o ≡ some r)
Decided-some (zero_wins a' b' w) = (_, refl)
Decided-some (one_wins a' b' w) = (_, refl)

fight_entry :
    (fuel id attr : ℕ) (a b : Status)
    → get_elem? attr_table id ≡ some attr
    → fight fuel id a b ≡ rounds fuel attr (entered id a) (entered id b)
unfolding fight
fight_entry fuel id attr a b e = rw e refl

IsReady-unended : (s : Status) → IsReady s → is_over s ≡ false
IsReady-unended s ready = rw ready.unended refl

get_elem?-lt : (xs : List ℕ) (i : ℕ) {x : ℕ} → get_elem? xs i ≡ some x → i < length xs
get_elem?-lt [] i e = cc
get_elem?-lt (x ∷ xs) zero e = omega arith
get_elem?-lt (x ∷ xs) (suc i) e = omega (arith, get_elem?-lt xs i e)

-- A battle with an entry in the table and two players that are alive, with HP below 2^30, a positive
-- attack below 2^29 and no flag, in any order of their steps: there are no more than 10 for each HP
-- of status 0, and 4; some process can go on until the battle has left its loop and both players
-- have been told how it ended; and the battle leaves its loop with the index of the winner and the
-- statuses that `fight` computes.
pub Run-Comes :
    {id attr : ℕ} {left right a b : Status} {n : ℕ} {m : Match}
    → get_elem? attr_table id ≡ some attr
    → IsReady a
    → IsReady b
    → Run id attr (begun left right a b) n m
    → Comes id attr (pos_part a.hp) (fight (pos_part a.hp) id a b) n m
unfolding ahead tokens
Run-Comes {id} {attr} {left} {right} {a} {b} {n} {m} e ra rb run =
    let fuel = pos_part a.hp in
    let (r, is) =
      Decided-some (fight-Decided fuel id a b (get_elem?-lt attr_table id e) ra rb (omega arith)) in
    let inv : Inv id attr r fuel (begun left right a b) =
      starts held held (IsReady-unended a ra) (IsReady-unended b rb)
        (sym (fight_entry fuel id attr a b e) ∙ is) in
    let paid = Run-Paid id attr r inv run in
    record {
      bounded = omega (arith, paid.paid);
      goes_on = elim (progress id attr r paid.inv) [
        | inl step ↦ inl step
        | inr settled ↦ inr (r, is, settled)
      ];
      answer = λ win over_now. is ∙ ap some (decided-eq id attr r win paid.inv over_now);
    }
