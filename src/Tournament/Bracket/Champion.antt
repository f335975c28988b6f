-- ===== src/Tournament/Bracket/Champion.antt =====
-- The tournament comes to an end, and its champion is one of the eight players.
use system_programming_hw.Common.{
  ℕ, zero, suc, ◌<◌, ◌≤◌, ◌≡◌, refl, true, false, not, ◌||◌, List, Option, none, some, inl, inr,
  leb, arith, Bool-cases, ◌>>=◌,
}
use system_programming_hw.Common.Int.{pos_part}
use system_programming_hw.Tournament.Battle.{Status, fight}
use system_programming_hw.Tournament.Battle.Rounds.{IsReady}
use system_programming_hw.Tournament.Battle.Ends.{
  Decided, zero_wins, one_wins, entered, entered-IsReady, fight-Decided,
}
use system_programming_hw.Tournament.Tree.{Child, battle, player, child}
use system_programming_hw.Tournament.Roster.{Row, read_status, read_status_id}
use system_programming_hw.Tournament.Bracket.{Side, enters, sides, outcome, champion_of}
use system_programming_hw.Tournament.Bracket.Tables.{
  rank, Comes, child-Comes, has_agent, is_real, child_real,
}
use system_programming_hw.Tournament.Bracket.Settled.{
  rank_root, Enters, Settled, risen-Enters, replaced-Enters,
}

module _ (rows : List Row) (entry : (n : ℕ) → n < 8 → IsReady (read_status n rows)) where
  -- A child of a battle, where the battles below it are settled.
  child-Enters :
      (outcomes : ℕ → Option (Side × Side)) (b : ℕ)
      → ((c : ℕ) → c < 14 → rank c < rank b → Settled c (outcomes c))
      → (c : Option Child) → Comes b c
      → (not (has_agent b) || is_real c) ≡ true
      → Enters (has_agent b) (c >>= λ c. enters rows outcomes c)
  unfolding enters
  child-Enters outcomes b below none h real = absurd h
  child-Enters outcomes b below (some (battle c)) h real =
      risen-Enters (has_agent b) c (outcomes c) (λ e. omega (arith, e)) (λ e. ground arith)
        (below c h.0 h.1)
  child-Enters outcomes b below (some (player n)) h real = elim (Bool-cases (leb n 7)) [
    | inl own ↦ rw own (record {
      side = record { process = n; origin = (read_status n rows).hp; status = read_status n rows };
      is = refl;
      ready = entry n (ground arith);
      within = omega arith;
      bound = (entry n (ground arith)).hp_bound;
      id = rw (read_status_id n rows) (ground arith);
      process = λ e. ground arith;
    })
    | inr agent ↦ elim h [
      | inl own ↦ cc
      | inr (c, f, a, known, deeper, low) ↦
          let mixed : has_agent b ≡ false = ground arith in
          rw (agent, f, mixed)
            (replaced-Enters n c (outcomes c) (λ e. omega (arith, e)) a (below c known deeper))
    ]
  ]

  sides-Settled :
      (b : ℕ) (l r : Side) (o : Option (ℕ × Status × Status))
      → (has_agent b ≡ true → l.process < 8)
      → (has_agent b ≡ true → r.process < 8)
      → IsReady l.status
      → IsReady r.status
      → pos_part l.status.hp ≤ pos_part l.origin
      → pos_part r.status.hp ≤ pos_part r.origin
      → pos_part l.origin < 1073741824
      → pos_part r.origin < 1073741824
      → l.status.real_player_id < 8
      → r.status.real_player_id < 8
      → Decided (entered b l.status) (entered b r.status) o
      → Settled b (o >>= λ result. some (sides rows l r result))
  sides-Settled b l r o pl pr rl rr wl wr bl br il ir (zero_wins s t w) = record {
    winner = record l { status = s };
    loser = record r { status = t };
    is = refl;
    won = record {
      before = l.status;
      ready = rl;
      within = wl;
      bound = bl;
      id = rw w.same.same_player il;
      place = w.same.same_battle;
      attack = w.same.same_attack;
      process = pl;
    };
    lost = record {
      before = r.status;
      ready = rr;
      within = wr;
      bound = br;
      id = rw w.loser_same.same_player ir;
      place = w.loser_same.same_battle;
      attack = w.loser_same.same_attack;
      process = pr;
    };
    before = entered b l.status;
    other = entered b r.status;
    ready = entered-IsReady b l.status rl;
    within = wl;
    wins = w;
  }
  sides-Settled b l r o pl pr rl rr wl wr bl br il ir (one_wins s t w) = record {
    winner = record r { status = t };
    loser = record l { status = s };
    is = refl;
    won = record {
      before = r.status;
      ready = rr;
      within = wr;
      bound = br;
      id = rw w.same.same_player ir;
      place = w.same.same_battle;
      attack = w.same.same_attack;
      process = pr;
    };
    lost = record {
      before = l.status;
      ready = rl;
      within = wl;
      bound = bl;
      id = rw w.loser_same.same_player il;
      place = w.loser_same.same_battle;
      attack = w.loser_same.same_attack;
      process = pl;
    };
    before = entered b r.status;
    other = entered b l.status;
    ready = entered-IsReady b r.status rr;
    within = wr;
    wins = w;
  }

  outcome_lem :
      (fuel b : ℕ) {c d : Child} {l r : Side}
      → child b 0 ≡ some c
      → child b 1 ≡ some d
      → enters rows (λ b. outcome rows fuel b) c ≡ some l
      → enters rows (λ b. outcome rows fuel b) d ≡ some r
      → outcome rows (suc fuel) b ≡ (
          fight (pos_part l.status.hp) b l.status r.status >>= λ result.
          some (sides rows l r result))
  unfolding outcome
  outcome_lem fuel b e f g h = rw (e, f, g, h) refl

  Comes-some : (b : ℕ) (c : Option Child) → Comes b c → (d : Child) × (c ≡ some d)
  Comes-some b none h = absurd h
  Comes-some b (some d) h = (d, refl)

  outcome-Settled : (fuel b : ℕ) → b < 14 → rank b < fuel → Settled b (outcome rows fuel b)
  outcome-Settled zero b known deep = absurd (omega arith)
  outcome-Settled (suc fuel) b known deep =
      let outcomes = λ (b : ℕ). outcome rows fuel b in
      let below : (c : ℕ) → c < 14 → rank c < rank b → Settled c (outcomes c) =
        λ c h r. outcome-Settled fuel c h (omega arith) in
      let come_0 = child-Comes b 0 known (omega arith) in
      let come_1 = child-Comes b 1 known (omega arith) in
      let (c, ec) = Comes-some b (child b 0) come_0 in
      let (d, ed) = Comes-some b (child b 1) come_1 in
      let l : Enters (has_agent b) (enters rows outcomes c) =
        rw ec at
          (child-Enters outcomes b below (child b 0) come_0 (child_real b 0 known (omega arith))) in
      let r : Enters (has_agent b) (enters rows outcomes d) =
        rw ed at
          (child-Enters outcomes b below (child b 1) come_1 (child_real b 1 known (omega arith))) in
      rw (outcome_lem fuel b ec ed l.is r.is) (
        sides-Settled b l.side r.side _ l.process r.process l.ready r.ready l.within r.within
          l.bound r.bound l.id r.id
          (fight-Decided (pos_part l.side.status.hp) b l.side.status r.side.status known l.ready
            r.ready (omega arith)))

  -- If each of the eight players begins alive, with HP below 2^30, a positive attack below 2^29 and
  -- no flag, the tournament comes to its end, and the champion is one of the eight.
  pub champion_of-player : (n : ℕ) × (champion_of rows ≡ some n) × (n < 8)
  unfolding champion_of
  champion_of-player =
      let s = outcome-Settled 6 0 (omega arith) rank_root in
      (s.winner.status.real_player_id, rw s.is refl, s.won.id)
