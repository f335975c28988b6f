-- ===== src/Tournament/Pipes/Inv.antt =====
-- Whatever process goes first, the battle and its players come to what `rounds` computes.
use system_programming_hw.Common.{
  ℕ, zero, suc, ◌<◌, ◌+◌, ◌*◌, ◌≡◌, sym, ◌∙◌, true, false, some, arith, Bool-cases, inl, inr,
  if◌then◌else◌,
}
use system_programming_hw.Tournament.Battle.{Status, alive, play, rounds}
use system_programming_hw.Tournament.Pipes.{
  Line, is_over, tagged, Phase, greets_zero, greets_one, plays, writes_zero, writes_one, tests,
  reads_zero, reads_one, over, Match, player_step,
}
use system_programming_hw.Tournament.Pipes.Tokens.{
  home, Offered, Gone, tokens, Offered-step, Gone-step, home-step,
}

-- The actions of the battle that are left before the next `play`.
unfoldable pub ahead : Phase → ℕ
ahead greets_zero = 2
ahead greets_one = 1
ahead plays = 0
ahead writes_zero = 9
ahead writes_one = 6
ahead tests = 3
ahead reads_zero = 2
ahead reads_one = 1
ahead (over win) = 0

-- A bound for the steps to the end, with `f` rounds to be played.
abbrev pub measure : ℕ → Match → ℕ
measure f m = 10 * f + ahead m.phase + tokens m.zero_line + tokens m.one_line

-- `play` ends the battle for both or for none.
play-over :
    (attr : ℕ) (s t : Status)
    → is_over s ≡ false
    → is_over t ≡ false
    → is_over (play attr s t).0 ≡ is_over (play attr s t).1
unfolding play
play-over attr s t hs ht = ground arith

abbrev pub at : Phase → Status → Status → Line → Line → Match
at p s t l k = record { phase = p; zero_status = s; one_status = t; zero_line = l; one_line = k }

module _ (id attr : ℕ) (r : ℕ × Status × Status) where
  -- `s` and `t` have gone to the players: for the end, or for another round.
  pub data After (f : ℕ) (s t : Status) : Type 0 where
    last : is_over s ≡ true → is_over t ≡ true → r ≡ (if alive s then 0 else 1, s, t) → After f s t
    more : is_over s ≡ false → is_over t ≡ false → rounds f attr s t ≡ some r → After f s t

  -- The states of the three processes, with `f` rounds to be played.
  pub data Inv (f : ℕ) : Match → Type 0 where
    starts :
        {left right a b : Status} {l k : Line}
        → Offered a l
        → Offered b k
        → is_over a ≡ false
        → is_over b ≡ false
        → rounds f attr (tagged id a) (tagged id b) ≡ some r
        → Inv f (at greets_zero left right l k)
    knows_zero :
        {s right b : Status} {k : Line}
        → Offered b k
        → is_over s ≡ false
        → is_over b ≡ false
        → rounds f attr s (tagged id b) ≡ some r
        → Inv f (at greets_one s right home k)
    ready :
        {s t : Status}
        → is_over s ≡ false
        → is_over t ≡ false
        → rounds f attr s t ≡ some r
        → Inv f (at plays s t home home)
    played : {s t : Status} → After f s t → Inv f (at writes_zero s t home home)
    wrote_zero :
        {s t : Status} {l : Line} → After f s t → Gone s l → Inv f (at writes_one s t l home)
    wrote_both :
        {s t : Status} {l k : Line} → After f s t → Gone s l → Gone t k → Inv f (at tests s t l k)
    waits_zero :
        {s t : Status} {l k : Line}
        → is_over s ≡ false
        → is_over t ≡ false
        → rounds f attr s t ≡ some r
        → Gone s l
        → Gone t k
        → Inv f (at reads_zero s t l k)
    waits_one :
        {s t : Status} {k : Line}
        → is_over s ≡ false
        → is_over t ≡ false
        → rounds f attr s t ≡ some r
        → Gone t k
        → Inv f (at reads_one s t home k)
    decided :
        {win : ℕ} {s t : Status} {l k : Line}
        → is_over s ≡ true
        → is_over t ≡ true
        → r ≡ (win, s, t)
        → Gone s l
        → Gone t k
        → Inv f (at (over win) s t l k)

  -- A step leads on, and lessens the measure.
  pub record Next (f : ℕ) (m n : Match) : Type 0 where
    pub left : ℕ
    pub inv : Inv left n
    pub fewer : measure left n < measure f m

  pub play_round :
      (f : ℕ) (s t : Status)
      → is_over s ≡ false
      → is_over t ≡ false
      → rounds f attr s t ≡ some r
      → Next f
          (at plays s t home home)
          (at writes_zero (play attr s t).0 (play attr s t).1 home home)
  unfolding rounds tokens ahead
  play_round zero s t hs ht h = cc
  play_round (suc f) s t hs ht h =
      let same = play-over attr s t hs ht in
      record {
        left = f;
        inv =
            played {s = (play attr s t).0} {t = (play attr s t).1}
              (elim (Bool-cases (is_over (play attr s t).0)) [
                | inl end ↦ last end (sym same ∙ end) (cc (rw (end, rounds) at h))
                | inr on ↦ more on (sym same ∙ on) (rw (on, rounds) at h)
              ]);
        fewer = omega arith;
      }

  -- A child of the battle goes on.
  pub zero-Next :
      {f : ℕ} {m : Match} {l : Line}
      → Inv f m
      → player_step m.zero_line ≡ some l
      → Next f m (record m { zero_line = l })
  zero-Next {f} (starts {k} p q hs ht h) st =
      let moved = Offered-step p st in
      record { left = f; inv = starts moved.stays q hs ht h; fewer = omega (arith, moved.fewer) }
  zero-Next (knows_zero q hs ht h) st = absurd (home-step st)
  zero-Next (ready hs ht h) st = absurd (home-step st)
  zero-Next (played a) st = absurd (home-step st)
  zero-Next {f} (wrote_zero a p) st =
      let moved = Gone-step p st in
      record { left = f; inv = wrote_zero a moved.stays; fewer = omega (arith, moved.fewer) }
  zero-Next {f} (wrote_both a p q) st =
      let moved = Gone-step p st in
      record { left = f; inv = wrote_both a moved.stays q; fewer = omega (arith, moved.fewer) }
  zero-Next {f} (waits_zero hs ht h p q) st =
      let moved = Gone-step p st in
      record {
        left = f;
        inv = waits_zero hs ht h moved.stays q;
        fewer = omega (arith, moved.fewer);
      }
  zero-Next (waits_one hs ht h q) st = absurd (home-step st)
  zero-Next {f} (decided hs ht e p q) st =
      let moved = Gone-step p st in
      record { left = f; inv = decided hs ht e moved.stays q; fewer = omega (arith, moved.fewer) }

  pub one-Next :
      {f : ℕ} {m : Match} {l : Line}
      → Inv f m
      → player_step m.one_line ≡ some l
      → Next f m (record m { one_line = l })
  one-Next {f} (starts p q hs ht h) st =
      let moved = Offered-step q st in
      record { left = f; inv = starts p moved.stays hs ht h; fewer = omega (arith, moved.fewer) }
  one-Next {f} (knows_zero q hs ht h) st =
      let moved = Offered-step q st in
      record { left = f; inv = knows_zero moved.stays hs ht h; fewer = omega (arith, moved.fewer) }
  one-Next (ready hs ht h) st = absurd (home-step st)
  one-Next (played a) st = absurd (home-step st)
  one-Next (wrote_zero a p) st = absurd (home-step st)
  one-Next {f} (wrote_both a p q) st =
      let moved = Gone-step q st in
      record { left = f; inv = wrote_both a p moved.stays; fewer = omega (arith, moved.fewer) }
  one-Next {f} (waits_zero hs ht h p q) st =
      let moved = Gone-step q st in
      record {
        left = f;
        inv = waits_zero hs ht h p moved.stays;
        fewer = omega (arith, moved.fewer);
      }
  one-Next {f} (waits_one hs ht h q) st =
      let moved = Gone-step q st in
      record { left = f; inv = waits_one hs ht h moved.stays; fewer = omega (arith, moved.fewer) }
  one-Next {f} (decided hs ht e p q) st =
      let moved = Gone-step q st in
      record { left = f; inv = decided hs ht e p moved.stays; fewer = omega (arith, moved.fewer) }
