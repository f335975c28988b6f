-- ===== src/Tournament/Relay.antt =====
-- The messages of HW2: `myread` and `mywrite` of HW2/battle.c and HW2/player.c with the lines that
-- they log, and the second `while` of `main` of HW2/battle.c, which stands between a winner and the
-- battle above.
pub mod Laws
use system_programming_hw.Common.{
  ℕ, ◌+◌, Bool, true, false, not, ◌&&◌, ◌||◌, List, [], ◌∷◌, ◌++◌, Option, none, some, ◌==◌, leb,
  if◌then◌else◌, update,
}
use system_programming_hw.Common.Int.{ℤ, pos}
use system_programming_hw.Text.{codes, show_int}
use system_programming_hw.Tournament.Battle.{Status, alive}
use system_programming_hw.Tournament.Player.{pass_on}
use system_programming_hw.Tournament.Tree.{Child, battle, player, child, parent}

-- `%c` for a battle, and `%d` for a player.
abbrev pub battle_name : ℕ → List ℕ
battle_name b = (65 + b) ∷ []

unfoldable pub child_name_of : Child → List ℕ
unfolding show_int
child_name_of (battle c) = battle_name c
child_name_of (player n) = show_int (pos n)

-- "%d,%d,%c,%d\n".
unfoldable pub status_text : Status → List ℕ
unfolding show_int
status_text s =
    show_int (pos s.real_player_id)
    ++ (codes ","
        ++ (show_int s.hp
            ++ (codes ","
                ++ (battle_name s.current_battle_id
                    ++ (codes "," ++ (show_int (pos s.battle_ended_flag) ++ codes "\n"))))))

-- "<self>,<pid> pipe from <peer>,<pid> <status>", and the same with "to".
unfoldable pub pipe_line :
    (verb : List ℕ) (self : List ℕ) (pid : ℤ) (peer : List ℕ) (peer_pid : ℤ) → Status → List ℕ
unfolding status_text
pipe_line verb self pid peer peer_pid s =
    self
    ++ (codes ","
        ++ (show_int pid
            ++ (codes " pipe "
                ++ (verb
                    ++ (codes " "
                        ++ (peer
                            ++ (codes ","
                                ++ (show_int peer_pid ++ (codes " " ++ status_text s)))))))))

-- A battle's process: its globals `id`, `mypid`, `myppid`, `pid` and `status`, and its log.
pub record Process : Type 0 where
  pub id : ℕ
  pub mypid : ℤ
  pub myppid : ℤ
  pub pid : ℕ → ℤ
  pub status : ℕ → Status
  pub log : List (List ℕ)

-- `parent_table` as a name, where the parent of `A` is the byte 0.
abbrev pub parent_name_of : Option ℕ → List ℕ
parent_name_of none = 0 ∷ []
parent_name_of (some b) = battle_name b

-- `child_name` as a name.
abbrev pub child_name_at : Option Child → List ℕ
child_name_at none = []
child_name_at (some c) = child_name_of c

-- The name and the pid of the other end of a pipe.
abbrev pub peer : Process → ℕ → (is_parent : Bool) → List ℕ × ℤ
peer p which true = (parent_name_of (parent p.id), p.myppid)
peer p which false = (child_name_at (child p.id which), p.pid which)

-- `myread`, when the message `s` comes.
unfoldable pub myread : ℕ → Bool → Status → Process → Process
unfolding pipe_line
myread which is_parent s p =
    let (name, peer_pid) = peer p which is_parent in
    record p {
      status = update p.status which s;
      log = p.log ++ pipe_line (codes "from") (battle_name p.id) p.mypid name peer_pid s ∷ [];
    }

-- `mywrite`, with the message that it sends.
unfoldable pub mywrite : ℕ → Bool → Process → Process × Status
unfolding pipe_line
mywrite which is_parent p =
    let (name, peer_pid) = peer p which is_parent in
    let s = p.status which in
    (
      record p {
        log = p.log ++ pipe_line (codes "to") (battle_name p.id) p.mypid name peer_pid s ∷ [];
      },
      s,
    )

-- The test at the end of the loop.
abbrev pub stops : Status → Bool
stops s = not (alive s) || (s.current_battle_id == 0 && s.battle_ended_flag == 1)

-- A turn of the loop: the message `up` of the winner goes to the battle above, and the message
-- `down` that comes from there goes to the winner. The results are the process, both messages as they
-- are passed on, and whether the loop stops.
unfoldable pub relay : (win : ℕ) (up down : Status) → Process → Process × Status × Status × Bool
unfolding myread mywrite
relay win up down p =
    let p₁ = myread win false up p in
    let (p₂, sent_up) = mywrite win true p₁ in
    let p₃ = myread win true down p₂ in
    let (p₄, sent_down) = mywrite win false p₃ in (p₄, sent_up, sent_down, stops (p₄.status win))

-- "log_player<id>.txt".
abbrev pub log_player : ℕ → List ℕ
log_player n = codes "log_player" ++ (show_int (pos n) ++ codes ".txt")

-- A player's process: its globals `id`, `target`, `myppid` and `mystatus`, its pid, the name of the
-- file that `log_fd` is open on, and what it has logged.
pub record Player : Type 0 where
  pub id : ℕ
  pub mypid : ℤ
  pub myppid : ℤ
  pub target : ℕ
  pub mystatus : Status
  pub log_file : List ℕ
  pub log : List (List ℕ)

-- `myread` and `mywrite` of a player on its pipes.
unfoldable pub player_read : Status → Player → Player
unfolding pipe_line
player_read s p = record p {
  mystatus = s;
  log =
      p.log
      ++ pipe_line (codes "from") (show_int (pos p.id)) p.mypid (battle_name p.target) p.myppid s
        ∷ [];
}

unfoldable pub player_write : Player → Player × Status
unfolding pipe_line
player_write p = (
  record p {
    log =
        p.log
        ++ pipe_line (codes "to") (show_int (pos p.id)) p.mypid (battle_name p.target) p.myppid
            p.mystatus
          ∷ [];
  },
  p.mystatus,
)

-- "<self>,<pid> fifo from <peer> <player>,<HP>", and the same with "to".
unfoldable pub fifo_line : (verb : List ℕ) (self : ℕ) (pid : ℤ) (peer : ℕ) → Status → List ℕ
unfolding show_int
fifo_line verb self pid peer s =
    show_int (pos self)
    ++ (codes ","
        ++ (show_int pid
            ++ (codes " fifo "
                ++ (verb
                    ++ (codes " "
                        ++ (show_int (pos peer)
                            ++ (codes " "
                                ++ (show_int (pos s.real_player_id)
                                    ++ (codes "," ++ (show_int s.hp ++ codes "\n"))))))))))

-- The same on a FIFO: an agent logs to the file of the player that it takes the place of.
unfoldable pub fifo_read : Status → Player → Player
unfolding fifo_line
fifo_read s p = record p {
  mystatus = s;
  log_file = log_player s.real_player_id;
  log = p.log ++ fifo_line (codes "from") p.id p.mypid s.real_player_id s ∷ [];
}

unfoldable pub fifo_write : (agent_id : ℕ) → Player → Player × Status
unfolding fifo_line
fifo_write agent_id p = (
  record p { log = p.log ++ fifo_line (codes "to") p.id p.mypid agent_id p.mystatus ∷ [] },
  p.mystatus,
)

-- The first lines of `main` of a real player, which has read its status, and of an agent, to which the
-- status `s` comes over its FIFO.
unfoldable pub start : Status → Player → Player × Status
unfolding player_write fifo_read
start s p =
    if leb p.id 7
    then player_write (record p { mystatus = s; log_file = log_player p.id })
    else player_write (fifo_read s p)

-- The last lines: a real player that has fallen below `A` writes to its agent.
abbrev pub hand_over : Player → Option (ℕ × Status) → Player × Option (ℕ × Status)
unfolding fifo_write
hand_over p none = (p, none)
hand_over p (some (agent_id, s)) =
    let (q, sent) = fifo_write agent_id (record p { mystatus = s }) in (q, some (agent_id, sent))

unfoldable pub finish : (origin_hp : ℤ) → Player → Player × Option (ℕ × Status)
unfolding pass_on
finish origin_hp p = hand_over p (pass_on p.id origin_hp p.mystatus)
