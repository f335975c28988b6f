-- ===== src/Tournament/Pipes/Actions.antt =====
-- The actions of the battle itself.
use system_programming_hw.Common.{ℕ, ◌≡◌, false, some, arith, Option-cases, inl, inr, if◌then◌else◌}
use system_programming_hw.Tournament.Battle.{Status, alive, play, rounds}
use system_programming_hw.Tournament.Pipes.{
  Line, is_over, tagged, greets_zero, greets_one, plays, writes_zero, writes_one, tests, reads_zero,
  reads_one, over, Match, receive, transmit, battle_step,
}
use system_programming_hw.Tournament.Pipes.Tokens.{
  home, Offered, Gone, written, tokens, Offered-receive, Gone-receive,
}
use system_programming_hw.Tournament.Pipes.Inv.{
  ahead, at, last, more, Inv, starts, knows_zero, ready, played, wrote_zero, wrote_both, waits_zero,
  waits_one, decided, Next, play_round,
}

module _ (id attr : ℕ) (r : ℕ × Status × Status) where
  -- What a `myread` leads to.
  reads_zero-Next :
      {f : ℕ} {s t : Status} {l k : Line} {n : Match}
      → is_over s ≡ false
      → is_over t ≡ false
      → rounds f attr s t ≡ some r
      → Gone s l
      → Gone t k
      → battle_step id attr (at reads_zero s t l k) ≡ some n
      → Next id attr r f (at reads_zero s t l k) n
  unfolding battle_step ahead tokens
  reads_zero-Next {f} {s} {t} {l} {k} {n} hs ht h p q st = elim (Option-cases (receive l)) [
    | inl blocked ↦ cc (rw blocked at st)
    | inr ((s', l'), got) ↦
        let (e, e', _) = Gone-receive p got in
        let next : at reads_one s' t l' k ≡ n = cc (rw got at st) in
        rw (← next, ← e, ← e') (record { left = f; inv = waits_one hs ht h q; fewer = omega arith })
  ]

  reads_one-Next :
      {f : ℕ} {s t : Status} {k : Line} {n : Match}
      → is_over s ≡ false
      → is_over t ≡ false
      → rounds f attr s t ≡ some r
      → Gone t k
      → battle_step id attr (at reads_one s t home k) ≡ some n
      → Next id attr r f (at reads_one s t home k) n
  unfolding battle_step ahead tokens
  reads_one-Next {f} {s} {t} {k} {n} hs ht h q st = elim (Option-cases (receive k)) [
    | inl blocked ↦ cc (rw blocked at st)
    | inr ((t', k'), got) ↦
        let (e, e', _) = Gone-receive q got in
        let next : at plays s t' home k' ≡ n = cc (rw got at st) in
        rw (← next, ← e, ← e') (record { left = f; inv = ready hs ht h; fewer = omega arith })
  ]

  greets_zero-Next :
      {f : ℕ} {left right a b : Status} {l k : Line} {n : Match}
      → Offered a l
      → Offered b k
      → is_over a ≡ false
      → is_over b ≡ false
      → rounds f attr (tagged id a) (tagged id b) ≡ some r
      → battle_step id attr (at greets_zero left right l k) ≡ some n
      → Next id attr r f (at greets_zero left right l k) n
  unfolding battle_step ahead tokens
  greets_zero-Next {f} {left} {right} {a} {b} {l} {k} {n} p q ha hb h st =
      elim (Option-cases (receive l)) [
        | inl blocked ↦ cc (rw blocked at st)
        | inr ((a', l'), got) ↦
            let (e, e') = Offered-receive p got in
            let next : at greets_one (tagged id a') right l' k ≡ n = cc (rw got at st) in
            rw (← next, ← e, ← e')
              (record { left = f; inv = knows_zero q ha hb h; fewer = omega arith })
      ]

  greets_one-Next :
      {f : ℕ} {s right b : Status} {k : Line} {n : Match}
      → Offered b k
      → is_over s ≡ false
      → is_over b ≡ false
      → rounds f attr s (tagged id b) ≡ some r
      → battle_step id attr (at greets_one s right home k) ≡ some n
      → Next id attr r f (at greets_one s right home k) n
  unfolding battle_step ahead tokens
  greets_one-Next {f} {s} {right} {b} {k} {n} q hs hb h st = elim (Option-cases (receive k)) [
    | inl blocked ↦ cc (rw blocked at st)
    | inr ((b', k'), got) ↦
        let (e, e') = Offered-receive q got in
        let next : at plays s (tagged id b') home k' ≡ n = cc (rw got at st) in
        rw (← next, ← e, ← e') (record { left = f; inv = ready hs hb h; fewer = omega arith })
  ]

  -- Every action of the battle leads on.
  pub battle-Next :
      {f : ℕ} {m n : Match}
      → Inv id attr r f m
      → battle_step id attr m ≡ some n
      → Next id attr r f m n
  unfolding battle_step ahead tokens
  battle-Next {f} {n} (ready {s} {t} hs ht h) st =
      let e : at writes_zero (play attr s t).0 (play attr s t).1 home home ≡ n = cc in
      rw (← e) (play_round id attr r f s t hs ht h)
  battle-Next {f} {n} (played {s} {t} a) st =
      let e : at writes_one s t (transmit s home) home ≡ n = cc in
      rw (← e) (record { left = f; inv = wrote_zero a written; fewer = omega arith })
  battle-Next {f} {n} (wrote_zero {s} {t} {l} a p) st =
      let e : at tests s t l (transmit t home) ≡ n = cc in
      rw (← e) (record { left = f; inv = wrote_both a p written; fewer = omega arith })
  battle-Next {f} {n} (wrote_both {s} {t} {l} {k} (last hs ht e) p q) st =
      let next : at (over (if alive s then 0 else 1)) s t l k ≡ n = cc (rw hs at st) in
      rw (← next) (record { left = f; inv = decided hs ht e p q; fewer = omega arith })
  battle-Next {f} {n} (wrote_both {s} {t} {l} {k} (more hs ht h) p q) st =
      let next : at reads_zero s t l k ≡ n = cc (rw hs at st) in
      rw (← next) (record { left = f; inv = waits_zero hs ht h p q; fewer = omega arith })
  battle-Next (decided hs ht e p q) st = cc
  battle-Next (waits_zero hs ht h p q) st = reads_zero-Next hs ht h p q st
  battle-Next (waits_one hs ht h q) st = reads_one-Next hs ht h q st
  battle-Next (starts p q ha hb h) st = greets_zero-Next p q ha hb h st
  battle-Next (knows_zero q hs hb h) st = greets_one-Next q hs hb h st
