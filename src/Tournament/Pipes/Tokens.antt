-- ===== src/Tournament/Pipes/Tokens.antt =====
-- A child and its two pipes hold one status, or none while the battle has it.
use system_programming_hw.Common.{
  ℕ, ◌<◌, ◌≡◌, refl, true, false, List, [], ◌∷◌, some, ◌⊎◌, inl, inr, arith, Bool-cases,
}
use system_programming_hw.Tournament.Battle.{Status}
use system_programming_hw.Tournament.Pipes.{
  Line, Activity, awaits, writes, leaves, is_over, player_step, receive,
}

abbrev pub line : List Status → List Status → Activity → Line
line down up player = record { down = down; up = up; player = player }

-- The battle has the status.
abbrev pub home : Line
home = line [] [] awaits

-- The child has `s` to write, or has written it.
pub data Offered (s : Status) : Line → Type 0 where
  held : Offered s (line [] [] (writes s))
  sent : Offered s (line [] (s ∷ []) awaits)

-- The battle has written `s`, and the child may have gone on.
pub data Gone (s : Status) : Line → Type 0 where
  written : Gone s (line (s ∷ []) [] awaits)
  answered : {l : Line} → is_over s ≡ false → Offered s l → Gone s l
  told : is_over s ≡ true → Gone s (line [] [] (leaves s))

-- The most steps that the child can take before the battle reads.
unfoldable pub tokens : Line → ℕ
tokens l = elim l.player [
  | writes s ↦ 1
  | leaves s ↦ 0
  | awaits ↦ elim l.down [ [] ↦ 0 | s ∷ down ↦ 2 ]
]

-- What a step of a child leaves.
pub record Moved (P : Line → Type 0) (l l' : Line) : Type 0 where
  pub stays : P l'
  pub fewer : tokens l' < tokens l

pub Offered-step :
    {s : Status} {l l' : Line} → Offered s l → player_step l ≡ some l' → Moved (Offered s) l l'
unfolding player_step tokens
Offered-step {s} {l'} held h =
    let e : line [] (s ∷ []) awaits ≡ l' = cc in
    rw (← e) (record { stays = sent; fewer = omega arith })
Offered-step sent h = cc

pub Gone-step :
    {s : Status} {l l' : Line} → Gone s l → player_step l ≡ some l' → Moved (Gone s) l l'
unfolding player_step tokens
Gone-step {s} {l'} written h = elim (Bool-cases (is_over s)) [
  | inl last ↦
      let e : line [] [] (leaves s) ≡ l' = cc (rw last at h) in
      rw (← e) (record { stays = told last; fewer = omega arith })
  | inr more ↦
      let e : line [] [] (writes s) ≡ l' = cc (rw more at h) in
      rw (← e) (record { stays = answered more held; fewer = omega arith })
]
Gone-step (answered more o) h =
    let moved = Offered-step o h in
    record { stays = answered more moved.stays; fewer = moved.fewer }
Gone-step (told last) h = cc

-- At home the child waits.
pub home-step : {l : Line} → player_step home ≡ some l → ⊥
unfolding player_step
home-step h = cc

-- A child that the battle waits for has sent its status, or can go on.
pub Offered-cases :
    {s : Status} {l : Line}
    → Offered s l
    → (l ≡ line [] (s ∷ []) awaits) ⊎ ((l' : Line) × (player_step l ≡ some l'))
unfolding player_step
Offered-cases held = inr (_, refl)
Offered-cases sent = inl refl

pub Gone-cases :
    {s : Status} {l : Line}
    → Gone s l
    → is_over s ≡ false
    → (l ≡ line [] (s ∷ []) awaits) ⊎ ((l' : Line) × (player_step l ≡ some l'))
unfolding player_step
Gone-cases written more = inr (_, refl)
Gone-cases (answered more' o) more = Offered-cases o
Gone-cases (told last) more = cc

pub Gone-over :
    {s : Status} {l : Line}
    → Gone s l
    → is_over s ≡ true
    → (l ≡ line [] [] (leaves s)) ⊎ ((l' : Line) × (player_step l ≡ some l'))
unfolding player_step
Gone-over written last = inr (_, refl)
Gone-over (answered more o) last = cc
Gone-over (told last') last = inl refl

-- What the battle receives.
pub Offered-receive :
    {s t : Status} {l l' : Line} → Offered s l → receive l ≡ some (t, l') → (s ≡ t) × (home ≡ l')
Offered-receive held h = cc
Offered-receive sent h = (cc, cc)

pub Gone-receive :
    {s t : Status} {l l' : Line}
    → Gone s l
    → receive l ≡ some (t, l')
    → (s ≡ t) × (home ≡ l') × (is_over s ≡ false)
Gone-receive written h = cc
Gone-receive (answered more o) h = let (e, f) = Offered-receive o h in (e, f, more)
Gone-receive (told last) h = cc
