-- ===== src/Tournament/Relay/Laws.antt =====
-- What a battle passes on, and when it stops.
use system_programming_hw.Common.{
  ℕ, ◌<◌, ◌≡◌, refl, Bool, true, false, not, [], ◌∷◌, ◌++◌, some, arith, update, Bool-cases, inl,
  inr,
}
use system_programming_hw.Common.Int.{ℤ, pos}
use system_programming_hw.Text.{codes, show_int}
use system_programming_hw.Tournament.Battle.{Status, alive}
use system_programming_hw.Tournament.Player.{Reaction, answers, champion, loses, react}
use system_programming_hw.Tournament.Tree.{battle, player, child, parent, which_target}
use system_programming_hw.Tournament.Tree.Laws.{child-Reports}
use system_programming_hw.Tournament.Relay.{
  Process, Player, relay, stops, myread, mywrite, player_read, pipe_line, battle_name,
  child_name_of,
}

abbrev pub goes_on : Reaction → Bool
goes_on (answers s) = true
goes_on champion = false
goes_on (loses s) = false

stops-react :
    (down : Status) (origin : ℤ)
    → (alive down ≡ false → down.battle_ended_flag ≡ 1)
    → stops down ≡ not (goes_on (react origin down))
unfolding react
stops-react down origin ends = elim (Bool-cases (alive down)) [
  | inl lives ↦ rw lives (ground arith)
  | inr fallen ↦ rw (fallen, ends fallen) refl
]

update_same {ℓ} : {A : Type ℓ} (f : ℕ → A) (i : ℕ) (x : A) → update f i x i ≡ x
update_same f i x = ground arith

-- A battle that relays passes both messages on as they are; and if the message from above has the
-- flag of the end wherever the HP are used up, the battle stops exactly when the player that gets
-- the message answers no more.
pub relay-react :
    (win : ℕ) (up down : Status) (p : Process) (origin : ℤ)
    → (alive down ≡ false → down.battle_ended_flag ≡ 1)
    → ((relay win up down p).1 ≡ up)
      × ((relay win up down p).2 ≡ down)
      × ((relay win up down p).3 ≡ not (goes_on (react origin down)))
unfolding relay
relay-react win up down p origin ends = (
  update_same p.status win up,
  update_same (update p.status win up) win down,
  rw (update_same (update p.status win up) win down) (stops-react down origin ends),
)

-- The two ends of a pipe between a battle and a battle below it log the same message under the same
-- two names and pids, if the process below has been started by the one above.
pub pipe-logs :
    (i w : ℕ) (p q : Process)
    → p.id < 14
    → i < 2
    → child p.id i ≡ some (battle q.id)
    → p.pid i ≡ q.mypid
    → q.myppid ≡ p.mypid
    → ((mywrite i false p).0.log
        ≡ p.log
          ++ pipe_line
              (codes "to")
              (battle_name p.id)
              p.mypid
              (battle_name q.id)
              q.mypid
              (p.status i)
            ∷ [])
      × ((myread w true (p.status i) q).log
          ≡ q.log
            ++ pipe_line
                (codes "from")
                (battle_name q.id)
                q.mypid
                (battle_name p.id)
                p.mypid
                (p.status i)
              ∷ [])
unfolding myread mywrite child_name_of
pipe-logs i w p q known two below pid ppid =
    let above : parent q.id ≡ some p.id = rw below at (child-Reports p.id i known two) in
    (rw (below, pid) refl, rw (above, ppid) refl)

-- The same for a pipe between a battle and a player.
pub player_pipe-logs :
    (i : ℕ) (p : Process) (q : Player)
    → p.id < 14
    → i < 2
    → child p.id i ≡ some (player q.id)
    → which_target q.id ≡ some q.target
    → p.pid i ≡ q.mypid
    → q.myppid ≡ p.mypid
    → ((mywrite i false p).0.log
        ≡ p.log
          ++ pipe_line
              (codes "to")
              (battle_name p.id)
              p.mypid
              (show_int (pos q.id))
              q.mypid
              (p.status i)
            ∷ [])
      × ((player_read (p.status i) q).log
          ≡ q.log
            ++ pipe_line
                (codes "from")
                (show_int (pos q.id))
                q.mypid
                (battle_name p.id)
                p.mypid
                (p.status i)
              ∷ [])
unfolding player_read mywrite child_name_of
player_pipe-logs i p q known two below target pid ppid =
    let at = rw below at (child-Reports p.id i known two) in
    let same : q.target ≡ p.id = cc (at, target) in (rw (below, pid) refl, rw (same, ppid) refl)
