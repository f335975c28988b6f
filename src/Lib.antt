-- ===== src/Lib.antt =====
-- Verification library for the four system programming homeworks of this repository.
--
-- The parts are independent programs. Each has a module with its data and operations, by the names
-- of the source, and child modules for what is proved about them; Tests modules run the definitions.
--
-- Booking models HW1/server.c, the booking server, as it is built with WRITE_SERVER and with
--   READ_SERVER.
--   Booking/Parse is `myatoi`, Booking/Rules the loops of `handle_read` over the counts of a record,
--   Booking/Session the state (`request`, `mylock`, the record file, what has been sent) and
--   `slot`, Booking/Writer `handle_read` with `mylock_check` and `mylock_function`, and
--   Booking/Writer/Turns the body of the loop of `main` as a step relation over connections. The
--   record locks of the operating system are a parameter, `Kernel`; other processes may change
--   them and the file at any step. Arithmetic on `int` wraps at 32 bits (Common/Int). Booking/Reader and
--   Booking/Reader/Turns are the same functions under READ_SERVER, over the same state; there
--   `self_lock` counts the readers of a record, and states are reached in a number of steps, below
--   which the counters do not wrap. Booking/Servers puts any number of processes of both builds
--   together, over one record file and the locks that `fcntl` keeps, whose documented behaviour is
--   a parameter, `Fcntl`; the table of locks in Booking/Servers/Table shows that it can be met.
--   A text that fills the 512 bytes of the local buffer of `handle_read`, with no NUL byte, leaves what
--   C defines: the outcome `stray`, after which nothing is modelled.
--   The turns of different servers come in any order, and Booking/Servers/Race is the case of one
--   that begins while another is between its two calls of `fcntl`.
-- Movies models HW4. Movies/Select is `sort` of HW4/lib.c; Movies/Merge, Movies/Request are `merge`,
--   `mergesort`, `cross` and `deal_request` of HW4/server.c, for threads and for processes, which
--   differ in the test for a leaf. `double` is a parameter, `Scores`, whose laws are those of the
--   order of the values that are no NaN. The arrays of `Range`, of 70,000 entries, are lists. The
--   halves of a range are disjoint, so that
--   the calls that run at once are written one after the other; Movies/Processes models the
--   memory that the processes share, with pointers and buffers, and their steps in any order, at
--   most 46, as the calls go four levels deep. The recursion is on fuel: 8
--   for the threads, as 70,000 movies are cut to ranges of 1,024 in at most 7 levels, and 5 for the
--   processes, whose leaves are on level 4. Movies/Input is `read_request` and `initialize`, from the
--   bytes of the file and of the standard input, with `strtok`, `fgets` and `scanf` as far as they
--   are used; `strtod`, `sqrt` and `/` are a parameter, `Reals`. Its loop over the lines is on
--   fuel, the length of the file, since a line takes a byte at least. Movies/Server is `main`, with the
--   names and texts of the files that it writes, or `none` where two requests of a batch have one id
--   and their threads write one file at once; its batches are on fuel, one more than the number
--   of requests, since a batch serves one at least.
-- Threads models HW3. Threads/Scheduler is `scheduler` of HW3/scheduler.c over the two queues, with
--   what `poll` reports in each round as a parameter; polling runs for as many rounds as are given.
--   Threads/Bodies are the functions of HW3/threads.c between two switches, over the control block
--   of HW3/threadtools.h. Threads/System puts them together: `init_threads` and the arguments of
--   HW3/main.c, `thread_yield`, `thread_exit` and `async_read` of HW3/threadtools.h, and `sighandler`
--   of HW3/scheduler.c, as a step relation in which each event says which signals are
--   pending, what `poll` reports and what a pipe holds; the lines that a thread has read
--   are kept in the relation.
-- Tournament models HW2. Tournament/Battle is `play` of HW2/battle.c and the loop of `main` that plays
--   until one player has fallen, on fuel; as many rounds as one player has HP are enough. A player
--   sends back what it is sent while the battle goes on, so that the loop runs on the statuses
--   themselves. Tournament/Tree are the tables of HW2/battle.c and those of HW2/player.c, and
--   Tournament/Player the answers of a player in `main` of HW2/player.c. Tournament/Roster is
--   `read_status`, Tournament/Relay `myread` and `mywrite` of both programs with the lines that they
--   log, the `while` in which a battle relays, and what goes over the FIFOs. Tournament/Bracket
--   is the whole tree: the outcome of each battle from those of the battles below it and of those
--   whose losers an agent stands for, six battles deep at most, up to the line with the champion.
--   Tournament/Pipes is one battle with its two players as processes and the pipes between them,
--   whose steps come in any order.
-- Common and Text hold lists, options, integers of 32 bits, and strings of bytes with `atoi`,
-- `strcmp`, `strstr` and `%d` as far as the sources use them.
--
-- Not modelled: sockets, `poll` and the log of the booking server; in HW2 `execl`, `wait` and the
-- descriptors, and the order in which processes of different battles of the tree run; in HW3 the
-- masks, `alarm` and the named pipes; memory that is allocated and freed, and calls of the system
-- that fail, except where the sources answer to them.
pub mod Common
pub mod Text
pub mod Booking
pub mod Movies
pub mod Threads
pub mod Tournament
