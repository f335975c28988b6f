-- ===== src/Tournament/Pipes/Progress.antt =====
-- The steps of a battle and its players come to an end, and until then some process can go on.
use system_programming_hw.Common.{ℕ, ◌≤◌, ◌+◌, ◌≡◌, refl, [], arith, ◌⊎◌, inl, inr}
use system_programming_hw.Tournament.Battle.{Status}
use system_programming_hw.Tournament.Pipes.{
  leaves, over, Match, battle_step, act, Step, battle_goes, zero_goes, one_goes, Run, start, later,
}
use system_programming_hw.Tournament.Pipes.Tokens.{line, Offered-cases, Gone-cases, Gone-over}
use system_programming_hw.Tournament.Pipes.Inv.{
  measure, Inv, starts, knows_zero, ready, played, wrote_zero, wrote_both, waits_zero, waits_one,
  decided, Next, zero-Next, one-Next,
}
use system_programming_hw.Tournament.Pipes.Actions.{battle-Next}

-- The battle has left its loop with `r`, and both players have been told.
pub record IsSettled (r : ℕ × Status × Status) (m : Match) : Type 0 where
  pub winner : m.phase ≡ over r.0
  pub zero_told : m.zero_line ≡ line [] [] (leaves r.1)
  pub one_told : m.one_line ≡ line [] [] (leaves r.2)

module _ (id attr : ℕ) (r : ℕ × Status × Status) where
  Step-Next : {f : ℕ} {m n : Match} → Inv id attr r f m → Step id attr m n → Next id attr r f m n
  Step-Next inv (battle_goes h) = battle-Next id attr r inv h
  Step-Next inv (zero_goes h) = zero-Next id attr r inv h
  Step-Next inv (one_goes h) = one-Next id attr r inv h

  -- The measure pays for every step.
  pub record Paid (budget n : ℕ) (m : Match) : Type 0 where
    pub left : ℕ
    pub inv : Inv id attr r left m
    pub paid : n + measure left m ≤ budget

  pub Run-Paid :
      {f : ℕ} {m : Match} {n : ℕ} {t : Match}
      → Inv id attr r f m
      → Run id attr m n t
      → Paid (measure f m) n t
  Run-Paid {f} inv start = record { left = f; inv = inv; paid = omega arith }
  Run-Paid inv (later run st) =
      let before = Run-Paid inv run in
      let next = Step-Next before.inv st in
      record { left = next.left; inv = next.inv; paid = omega (arith, before.paid, next.fewer) }

  abbrev pub CanStep : Match → Type 0
  CanStep m = (n : Match) × Step id attr m n

  -- Some process can go on, or the battle is settled.
  pub progress : {f : ℕ} {m : Match} → Inv id attr r f m → CanStep m ⊎ IsSettled r m
  unfolding battle_step act
  progress (starts p q ha hb h) = elim (Offered-cases p) [
    | inl there ↦ inl (rw there (_, battle_goes refl))
    | inr (l, st) ↦ inl (_, zero_goes st)
  ]
  progress (knows_zero q hs hb h) = elim (Offered-cases q) [
    | inl there ↦ inl (rw there (_, battle_goes refl))
    | inr (l, st) ↦ inl (_, one_goes st)
  ]
  progress (ready hs ht h) = inl (_, battle_goes refl)
  progress (played a) = inl (_, battle_goes refl)
  progress (wrote_zero a p) = inl (_, battle_goes refl)
  progress (wrote_both a p q) = inl (_, battle_goes refl)
  progress (waits_zero hs ht h p q) = elim (Gone-cases p hs) [
    | inl there ↦ inl (rw there (_, battle_goes refl))
    | inr (l, st) ↦ inl (_, zero_goes st)
  ]
  progress (waits_one hs ht h q) = elim (Gone-cases q ht) [
    | inl there ↦ inl (rw there (_, battle_goes refl))
    | inr (l, st) ↦ inl (_, one_goes st)
  ]
  progress (decided hs ht e p q) = elim (Gone-over p hs) [
    | inr (l, st) ↦ inl (_, zero_goes st)
    | inl told_zero ↦ elim (Gone-over q ht) [
      | inr (l, st) ↦ inl (_, one_goes st)
      | inl told_one ↦
          inr (rw e (record { winner = refl; zero_told = told_zero; one_told = told_one }))
    ]
  ]

  pub decided-eq :
      {f : ℕ} {m : Match} (win : ℕ)
      → Inv id attr r f m
      → m.phase ≡ over win
      → r ≡ (win, m.zero_status, m.one_status)
  decided-eq win (starts p q ha hb h) e = cc
  decided-eq win (knows_zero q hs hb h) e = cc
  decided-eq win (ready hs ht h) e = cc
  decided-eq win (played a) e = cc
  decided-eq win (wrote_zero a p) e = cc
  decided-eq win (wrote_both a p q) e = cc
  decided-eq win (waits_zero hs ht h p q) e = cc
  decided-eq win (waits_one hs ht h q) e = cc
  decided-eq win (decided hs ht is p q) e = cc
