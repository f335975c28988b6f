-- ===== src/Tournament/Battle/Rounds.antt =====
-- What a round of a battle does to the two players.
use system_programming_hw.Common.{
  ℕ, ◌+◌, ◌≤◌, ◌<◌, ◌≡◌, refl, ◌∙◌, true, false, arith, inl, inr, ◌⊎◌, Bool-cases, if◌then◌else◌,
  ◌==◌,
}
use system_programming_hw.Common.Int.{ℤ, pos, negsuc, ◌-ℤ◌, ◌*ℤ◌, wrap32, pos_part, neg_part}
use system_programming_hw.Tournament.Battle.{
  Status, number, damage, strike, alive, exchange, zero_first, play, ended,
}

-- A player in a battle: alive, with an attack, both within a bound that no sum of them passes.
pub record IsReady (s : Status) : Type 0 where
  pub living : 0 < pos_part s.hp
  pub hp_bound : pos_part s.hp < 1073741824
  pub attack : 0 < pos_part s.atk
  pub atk_bound : pos_part s.atk < 536870912
  pub unended : s.battle_ended_flag ≡ 0

times_small :
    (a : ℤ) (k : ℕ)
    → 0 < pos_part a
    → pos_part a < 536870912
    → (k ≡ 1) ⊎ (k ≡ 2)
    → (d : ℕ) × (wrap32 (a *ℤ pos k) ≡ pos d) × (0 < d) × (d < 1073741824)
unfolding wrap32 ◌*ℤ◌
times_small (pos n) k p h (inl e) = (n, rw e (ground arith), omega arith, omega arith)
times_small (pos n) k p h (inr e) = (n + n, rw e (ground arith), omega arith, omega arith)
times_small (negsuc n) k p h e = absurd (omega arith)

-- The same player in the same battle.
pub record Alike (after before : Status) : Type 0 where
  pub same_player : after.real_player_id ≡ before.real_player_id
  pub same_attack : after.atk ≡ before.atk
  pub same_battle : after.current_battle_id ≡ before.current_battle_id

Alike-refl : (s : Status) → Alike s s
Alike-refl s = record { same_player = refl; same_attack = refl; same_battle = refl }

pub Alike-trans : {a b c : Status} → Alike a b → Alike b c → Alike a c
Alike-trans f g = record {
  same_player = f.same_player ∙ g.same_player;
  same_attack = f.same_attack ∙ g.same_attack;
  same_battle = f.same_battle ∙ g.same_battle;
}

Alike-ended : {s before : Status} → Alike s before → Alike (ended s) before
Alike-ended f = record {
  same_player = f.same_player;
  same_attack = f.same_attack;
  same_battle = f.same_battle;
}

-- What a stroke takes from the target.
pub record Stroke (attr : ℕ) (attacker target : Status) : Type 0 where
  pub amount : ℕ
  pub some_amount : 0 < amount
  pub exact :
      pos_part (strike attr attacker target).hp + amount
      ≡ neg_part (strike attr attacker target).hp + pos_part target.hp
  pub same : Alike (strike attr attacker target) target
  pub same_flag : (strike attr attacker target).battle_ended_flag ≡ target.battle_ended_flag

standing : (s : Status) → alive s ≡ true → (0 < pos_part s.hp) × (neg_part s.hp ≡ 0)
standing s h = ground arith

pub beaten : (s : Status) → alive s ≡ false → pos_part s.hp ≡ 0
beaten s h = ground arith

minus_exact :
    (a : ℤ) (d : ℕ)
    → 0 < pos_part a
    → pos_part a < 1073741824
    → d < 1073741824
    → pos_part (wrap32 (a -ℤ pos d)) + d ≡ neg_part (wrap32 (a -ℤ pos d)) + pos_part a
unfolding wrap32 ◌-ℤ◌
minus_exact (pos n) d p h k = ground arith
minus_exact (negsuc n) d p h k = absurd (omega arith)

stroke :
    (attr : ℕ) (attacker target : Status)
    → 0 < pos_part attacker.atk
    → pos_part attacker.atk < 536870912
    → 0 < pos_part target.hp
    → pos_part target.hp < 1073741824
    → Stroke attr attacker target
unfolding strike damage
stroke attr attacker target p h q k =
    let (d, e, some_d, small) =
      times_small attacker.atk (if number attacker.attr == attr then 2 else 1) p h (ground arith) in
    record {
      amount = d;
      some_amount = some_d;
      exact = rw e (minus_exact target.hp d q k small);
      same = record { same_player = refl; same_attack = refl; same_battle = refl };
      same_flag = refl;
    }

-- The statuses of two players at the end of a battle, and before it.
pub record Wins (winner loser before loser_before : Status) : Type 0 where
  pub over : winner.battle_ended_flag ≡ 1
  pub over_too : loser.battle_ended_flag ≡ 1
  pub lives : 0 < pos_part winner.hp
  pub kept : pos_part winner.hp ≤ pos_part before.hp
  pub fallen : pos_part loser.hp ≡ 0
  pub same : Alike winner before
  pub loser_same : Alike loser loser_before

-- A player that goes on with less HP.
pub record Weaker (after before : Status) : Type 0 where
  pub ready : IsReady after
  pub less : pos_part after.hp < pos_part before.hp
  pub same : Alike after before

-- What a round leads to.
pub data Fought (a b a' b' : Status) : Type 0 where
  first_wins : Wins a' b' a b → Fought a b a' b'
  second_wins : Wins b' a' b a → Fought a b a' b'
  goes_on : Weaker a' a → Weaker b' b → Fought a b a' b'

-- A player that stands after a stroke.
Stroke-Weaker :
    (attr : ℕ) (attacker target : Status)
    → IsReady target
    → Stroke attr attacker target
    → alive (strike attr attacker target) ≡ true
    → Weaker (strike attr attacker target) target
Stroke-Weaker attr attacker target r s h =
    let (lives, no_debt) = standing (strike attr attacker target) h in
    let less : pos_part (strike attr attacker target).hp < pos_part target.hp =
      omega (arith, s.exact, s.some_amount) in
    record {
      ready = record {
        living = lives;
        hp_bound = omega (arith, r.hp_bound);
        attack = rw s.same.same_attack r.attack;
        atk_bound = rw s.same.same_attack r.atk_bound;
        unended = s.same_flag ∙ r.unended;
      };
      less = less;
      same = s.same;
    }

exchange-Fought :
    (attr : ℕ) (first second : Status)
    → IsReady first
    → IsReady second
    → Fought first second (exchange attr first second).0 (exchange attr first second).1
unfolding exchange
exchange-Fought attr first second rf rs =
    let second' = strike attr first second in
    let first' = strike attr second' first in
    let s = stroke attr first second rf.attack rf.atk_bound rs.living rs.hp_bound in
    let t =
      stroke attr second' first (rw s.same.same_attack rs.attack)
        (rw s.same.same_attack rs.atk_bound) rf.living rf.hp_bound in
    elim (Bool-cases (alive second')) [
      | inr fell ↦ rw fell (
          first_wins (record {
            over = refl;
            over_too = refl;
            lives = rf.living;
            kept = omega arith;
            fallen = beaten second' fell;
            same = Alike-ended (Alike-refl first);
            loser_same = Alike-ended s.same;
          }))
      | inl stands ↦
          let weaker = Stroke-Weaker attr first second rs s stands in
          elim (Bool-cases (alive first')) [
            | inr fell ↦
                rw (stands, fell)
                  (second_wins (record {
                    over = refl;
                    over_too = refl;
                    lives = weaker.ready.living;
                    kept = omega (arith, weaker.less);
                    fallen = beaten first' fell;
                    same = Alike-ended weaker.same;
                    loser_same = Alike-ended t.same;
                  }))
            | inl too ↦
                rw (stands, too) (goes_on (Stroke-Weaker attr second' first rf t too) weaker)
          ]
    ]

Fought-swap : {a b a' b' : Status} → Fought a b a' b' → Fought b a b' a'
Fought-swap (first_wins w) = second_wins w
Fought-swap (second_wins w) = first_wins w
Fought-swap (goes_on f s) = goes_on s f

pub play-Fought :
    (attr : ℕ) (a b : Status)
    → IsReady a
    → IsReady b
    → Fought a b (play attr a b).0 (play attr a b).1
unfolding play
play-Fought attr a b ra rb = elim (Bool-cases (zero_first a b)) [
  | inl zero_begins ↦ rw zero_begins (exchange-Fought attr a b ra rb)
  | inr one_begins ↦ rw one_begins (Fought-swap (exchange-Fought attr b a rb ra))
]
