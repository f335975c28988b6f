-- ===== src/Movies/Input.antt =====
-- HW4/server.c: `read_request` and `initialize`, with what they use of `strtok`, `fgets` and `scanf`.
-- The result `none` is an end of the program: an error exit, a failed assertion, a null pointer
-- handed to `atoi`, `strlen` or `strtod`, or a value that `scanf` has not set.
pub mod Bounds
pub mod Lines
pub mod Fuel
use system_programming_hw.Common.{
  ℕ, zero, suc, ◌+◌, ◌-◌, Bool, true, false, not, ◌&&◌, ◌||◌, List, [], ◌∷◌, ◌++◌, map, Option,
  none, some, ◌==◌, ltb, leb, length, take, if◌then◌else◌, ◌>>=◌,
}
use system_programming_hw.Common.Int.{ℤ, pos, negsuc}
use system_programming_hw.Text.{
  c_string, isdigit, isspace, skip_spaces, atoi, positive_int, negative_int,
}
use system_programming_hw.Movies.Score.{Scores}
use system_programming_hw.Movies.Request.{MovieProfile, Request}

-- `strtod`, `sqrt` and `/` on `double`.
pub record Reals (scores : Scores) : Type 0 where
  pub strtod : List ℕ → scores.Score
  pub sqrt : scores.Score → scores.Score
  pub divide : scores.Score → scores.Score → scores.Score

-- `strtok` with one delimiter: the delimiters in front are passed over, the token ends before the
-- next one, which is taken away. The second part is where the next call goes on.
unfoldable pub skip_delim : ℕ → List ℕ → List ℕ
skip_delim d [] = []
skip_delim d (c ∷ s) = let rest = skip_delim d s in if c == d then rest else c ∷ s

unfoldable pub token : ℕ → List ℕ → List ℕ × List ℕ
token d [] = ([], [])
token d (c ∷ s) = let (t, rest) = token d s in if c == d then ([], s) else (c ∷ t, rest)

abbrev pub token_of : ℕ → List ℕ → Option (List ℕ × List ℕ)
unfolding token
token_of d [] = none
token_of d (c ∷ s) = some (token d (c ∷ s))

unfoldable pub strtok : ℕ → List ℕ → Option (List ℕ × List ℕ)
unfolding skip_delim token
strtok d s = token_of d (skip_delim d s)

-- The bytes that `fgets` stores in a buffer of `n + 1` bytes, and the rest of the file.
unfoldable pub fgets_loop : ℕ → List ℕ → List ℕ × List ℕ
fgets_loop zero s = ([], s)
fgets_loop (suc n) [] = ([], [])
fgets_loop (suc n) (c ∷ s) =
    let (line, rest) = fgets_loop n s in if c == 10 then (10 ∷ [], s) else (c ∷ line, rest)

-- `fgets(chunk, sizeof(chunk), fp)`, with MAX_LEN bytes; the null pointer at the end of the file.
abbrev pub fgets : List ℕ → Option (List ℕ × List ℕ)
unfolding fgets_loop
fgets [] = none
fgets (c ∷ s) = some (fgets_loop 254 (c ∷ s))

-- `%254s`: the bytes up to the next space, at least one and `n` at most.
unfoldable pub word_loop : ℕ → List ℕ → List ℕ × List ℕ
word_loop zero s = ([], s)
word_loop (suc n) [] = ([], [])
word_loop (suc n) (c ∷ s) =
    let (w, rest) = word_loop n s in if isspace c then ([], c ∷ s) else (c ∷ w, rest)

abbrev pub word_of : List ℕ → Option (List ℕ × List ℕ)
unfolding word_loop
word_of [] = none
word_of (c ∷ s) = some (word_loop 254 (c ∷ s))

unfoldable pub scan_word : List ℕ → Option (List ℕ × List ℕ)
unfolding skip_spaces word_loop
scan_word s = word_of (skip_spaces s)

-- `%d` and `%u`: spaces, a sign, and at least one digit.
unfoldable pub skip_digits : List ℕ → List ℕ
skip_digits [] = []
skip_digits (c ∷ s) = let rest = skip_digits s in if isdigit c then rest else c ∷ s

abbrev pub digits_of : (value : List ℕ → ℤ) → List ℕ → Option (ℤ × List ℕ)
unfolding skip_digits
digits_of value [] = none
digits_of value (c ∷ s) = if isdigit c then some (value (c ∷ s), skip_digits (c ∷ s)) else none

abbrev pub signed_of : List ℕ → Option (ℤ × List ℕ)
signed_of [] = none
signed_of (c ∷ s) =
    if c == 45
    then digits_of negative_int s
    else if c == 43
    then digits_of positive_int s
    else digits_of positive_int (c ∷ s)

unfoldable pub scan_number : List ℕ → Option (ℤ × List ℕ)
unfolding skip_spaces skip_digits
scan_number s = signed_of (skip_spaces s)

-- `scanf("%d", &num_of_reqs)`: the global is 0 where there is no number.
abbrev pub number_of_reqs : Option (ℤ × List ℕ) → ℤ × List ℕ
number_of_reqs none = (pos 0, [])
number_of_reqs (some (n, rest)) = (n, rest)

-- `num_of_reqs <= MAX_REQ`, where a negative number is a great unsigned one.
abbrev pub at_most_32 : ℤ → Option ℕ
at_most_32 (pos n) = if leb n 32 then some n else none
at_most_32 (negsuc n) = none

module _ (scores : Scores) (reals : Reals scores) where
  open scores use {Score, plus, times, eqb}
  open reals use {strtod, sqrt, divide}

  -- The first loop over the genres: `n` values from the token on, and the sum of their squares.
  unfoldable pub genres : ℕ → Option (List ℕ × List ℕ) → Score → Option (List Score × Score)
  unfolding strtok
  genres zero t sum = some ([], sum)
  genres (suc n) none sum = none
  genres (suc n) (some (t, rest)) sum =
      let ret = strtod t in
      genres n (strtok 44 rest) (plus sum (times ret ret)) >>= λ (values, total).
      some (ret ∷ values, total)

  -- The second loop.
  unfoldable pub normalize : List Score → Score → List Score
  normalize values sum =
      map (λ v. if eqb (sqrt sum) scores.zero then scores.zero else divide v (sqrt sum)) values

  abbrev pub profile_of : Option (List ℕ × List ℕ) → Option (List Score)
  unfolding genres normalize
  profile_of t = genres 19 t scores.zero >>= λ (values, sum). some (normalize values sum)

  -- A line of the file of movies, in the body of the `while` of `initialize`: the array `chunk` ends
  -- after 254 bytes, where a NUL byte is set.
  unfoldable pub read_movie : List ℕ → Option (MovieProfile scores)
  unfolding c_string strtok profile_of atoi
  read_movie chunk = do
    (id, after_id) ← strtok 32 (c_string (take 254 chunk))
    (title, after_title) ← strtok 123 after_id
    profile ← profile_of (strtok 44 after_title)
    some (record { movie_id = atoi id; title = take (length title - 1) title; profile = profile })

  -- The `while` of `initialize` after `cnt` movies, over `fuel` lines at most.
  unfoldable pub read_movies : ℕ → ℕ → List ℕ → Option (List (MovieProfile scores))
  unfolding read_movie fgets_loop
  read_movies zero cnt file = none
  read_movies (suc fuel) cnt [] = some []
  read_movies (suc fuel) cnt (c ∷ s) =
      let (line, rest) = fgets_loop 254 (c ∷ s) in
      if ltb cnt 70000
      then (read_movie line >>= λ m. read_movies fuel (cnt + 1) rest >>= λ ms. some (m ∷ ms))
      else none

  -- `read_request`, and what is left of the input.
  unfoldable pub read_request : List ℕ → Option (Request scores × List ℕ)
  unfolding scan_number scan_word strtok profile_of
  read_request input = do
    (id, after_id) ← scan_number input
    (keywords, after_keywords) ← scan_word after_id
    (values, rest) ← scan_word after_keywords
    profile ← profile_of (strtok 44 values)
    some (record { id = id; keywords = keywords; profile = profile }, rest)

  unfoldable pub read_requests : ℕ → List ℕ → Option (List (Request scores))
  unfolding read_request
  read_requests zero input = some []
  read_requests (suc n) input = do
    (r, rest) ← read_request input
    rs ← read_requests n rest
    some (r ∷ rs)

  -- `initialize`, on the file of movies and the standard input. A line takes at least one byte, so
  -- that the length of the file is fuel enough; the test on the number of requests is unsigned.
  unfoldable pub initialize :
      (file input : List ℕ) → Option (List (MovieProfile scores) × List (Request scores))
  unfolding fgets read_movies scan_number read_requests
  initialize file input = do
    (header, lines) ← fgets file
    movies ← read_movies (suc (length lines)) 0 lines
    let (count, rest) = number_of_reqs (scan_number input)
    n ← at_most_32 count
    requests ← read_requests n rest
    some (movies, requests)
