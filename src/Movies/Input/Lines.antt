-- ===== src/Movies/Input/Lines.antt =====
-- A line of the file of movies is read back.
use system_programming_hw.Common.{
  ℕ, ◌-◌, ◌<◌, ◌≤◌, ◌≡◌, ◌≢◌, refl, ap, ◌∙◌, false, List, [], ◌∷◌, ◌++◌, map, some, length, take,
  take-length, take-all, length-append, ◌==◌, All, All-append, arith,
}
use system_programming_hw.Text.{c_string, atoi}
use system_programming_hw.Movies.Score.{Scores}
use system_programming_hw.Movies.Input.{
  Reals, skip_delim, token, token_of, strtok, genres, normalize, profile_of, read_movie,
}

-- A text that `strtok` takes as one token: not empty, and without the delimiter.
abbrev pub IsToken : ℕ → List ℕ → Type 0
IsToken d t = (0 < length t) × All (λ c. c ≢ d) t

abbrev pub join : List (List ℕ) → List ℕ
join [] = []
join (t ∷ []) = t
join (t ∷ u ∷ ts) = t ++ (44 ∷ join (u ∷ ts))

-- A line of the file: the id, the title, and the genres with the closing brace.
abbrev pub movie_line : List ℕ → List ℕ → List (List ℕ) → List ℕ
movie_line id title values = id ++ (32 ∷ ((title ++ 32 ∷ []) ++ (123 ∷ join values)))

token_before :
    (d : ℕ) (t rest : List ℕ) → All (λ c. c ≢ d) t → token d (t ++ (d ∷ rest)) ≡ (t, rest)
unfolding token
token_before d [] rest h = ground arith
token_before d (c ∷ t) rest h = ground (arith, token_before d t rest h.1)

token_whole : (d : ℕ) (t : List ℕ) → All (λ c. c ≢ d) t → token d t ≡ (t, [])
unfolding token
token_whole d [] h = refl
token_whole d (c ∷ t) h = ground (arith, token_whole d t h.1)

-- No delimiter stands in front.
skip_delim_other : (d c : ℕ) (s : List ℕ) → c ≢ d → skip_delim d (c ∷ s) ≡ c ∷ s
unfolding skip_delim
skip_delim_other d c s h = let other : (c == d) ≡ false = ground arith in rw other refl

strtok-token : (d c : ℕ) (s : List ℕ) → c ≢ d → strtok d (c ∷ s) ≡ some (token d (c ∷ s))
unfolding strtok token_of
strtok-token d c s h = ap (token_of d) (skip_delim_other d c s h)

strtok_before :
    (d : ℕ) (t rest : List ℕ) → IsToken d t → strtok d (t ++ (d ∷ rest)) ≡ some (t, rest)
strtok_before d [] rest h = absurd (omega (arith, h.0))
strtok_before d (c ∷ t) rest h =
    strtok-token d c (t ++ (d ∷ rest)) h.1.0 ∙ ap some (token_before d (c ∷ t) rest h.1)

strtok_whole : (d : ℕ) (t : List ℕ) → IsToken d t → strtok d t ≡ some (t, [])
strtok_whole d [] h = absurd (omega (arith, h.0))
strtok_whole d (c ∷ t) h = strtok-token d c t h.1.0 ∙ ap some (token_whole d (c ∷ t) h.1)

c_string_plain : (s : List ℕ) → All (λ c. c ≢ 0) s → c_string s ≡ s
unfolding c_string
c_string_plain [] h = refl
c_string_plain (c ∷ s) h = ground (arith, c_string_plain s h.1)

All-join : (ts : List (List ℕ)) → All (λ t. All (λ c. c ≢ 0) t) ts → All (λ c. c ≢ 0) (join ts)
All-join [] h = tt
All-join (t ∷ []) h = h.0
All-join (t ∷ u ∷ ts) h = All-append _ t _ h.0 ((λ e. omega (arith, e)), All-join (u ∷ ts) h.1)

stripped : (t : List ℕ) → take (length (t ++ 32 ∷ []) - 1) (t ++ 32 ∷ []) ≡ t
stripped t =
    let n : length (t ++ 32 ∷ []) - 1 ≡ length t = omega (arith, length-append t (32 ∷ [])) in
    rw n (take-length t (32 ∷ []))

module _ (scores : Scores) (reals : Reals scores) where
  open scores use {Score, plus, times}
  open reals use {strtod}

  -- The sum of the squares.
  abbrev pub squares : Score → List Score → Score
  squares sum [] = sum
  squares sum (v ∷ vs) = squares (plus sum (times v v)) vs

  genres-join :
      (ts : List (List ℕ)) (sum : Score)
      → All (IsToken 44) ts
      → genres scores reals (length ts) (strtok 44 (join ts)) sum
        ≡ some (map strtod ts, squares sum (map strtod ts))
  unfolding genres
  genres-join [] sum h = refl
  genres-join (t ∷ []) sum h = rw (strtok_whole 44 t h.0) refl
  genres-join (t ∷ u ∷ ts) sum h =
      rw
        (
          strtok_before 44 t (join (u ∷ ts)) h.0,
          genres-join (u ∷ ts) (plus sum (times (strtod t) (strtod t))) h.1,
        )
        refl

  read_movie-some :
      (chunk s : List ℕ) {id after_id title after_title : List ℕ} {profile : List Score}
      → c_string (take 254 chunk) ≡ s
      → strtok 32 s ≡ some (id, after_id)
      → strtok 123 after_id ≡ some (title, after_title)
      → profile_of scores reals (strtok 44 after_title) ≡ some profile
      → read_movie scores reals chunk
        ≡ some (record {
          movie_id = atoi id;
          title = take (length title - 1) title;
          profile = profile;
        })
  unfolding read_movie
  read_movie-some chunk s e f g h = rw (e, f, g, h) refl

  profile_of-join :
      (values : List (List ℕ))
      → All (IsToken 44) values
      → length values ≡ 19
      → profile_of scores reals (strtok 44 (join values))
        ≡ some
            (normalize scores reals (map strtod values) (squares scores.zero (map strtod values)))
  unfolding profile_of
  profile_of-join values h count = rw (rw count at (genres-join values scores.zero h)) refl

  -- A line of at most 254 bytes with an id, a title and 19 values, where the id has no space, the
  -- title no opening brace and the values no comma, none of them is empty and none has a NUL byte, is
  -- read back as the number of the id, the title, and the numbers of the values, each divided by
  -- the root of the sum of their squares, or 0 where that root is 0.
  pub read_movie-movie_line :
      (id title : List ℕ) (values : List (List ℕ))
      → IsToken 32 id
      → IsToken 123 title
      → All (IsToken 44) values
      → length values ≡ 19
      → All (λ c. c ≢ 0) id
      → All (λ c. c ≢ 0) title
      → All (λ t. All (λ c. c ≢ 0) t) values
      → length (movie_line id title values) ≤ 254
      → read_movie scores reals (movie_line id title values)
        ≡ some (record {
          movie_id = atoi id;
          title = title;
          profile =
              normalize scores reals (map strtod values) (squares scores.zero (map strtod values));
        })
  read_movie-movie_line id title values i t v count plain_id plain_title plain_values short =
      let space : All (λ c. c ≢ 0) (title ++ 32 ∷ []) =
        All-append _ title (32 ∷ []) plain_title ((λ e. omega (arith, e)), tt) in
      let whole : c_string (movie_line id title values) ≡ movie_line id title values =
        c_string_plain _ (
          All-append _ id _ plain_id (
            (λ e. omega (arith, e)),
            All-append _ (title ++ 32 ∷ []) _ space
                ((λ e. omega (arith, e)), All-join values plain_values),
          )) in
      let longer : IsToken 123 (title ++ 32 ∷ []) = (
        omega (arith, t.0, length-append title (32 ∷ [])),
        All-append _ title (32 ∷ []) t.1 ((λ e. omega (arith, e)), tt),
      ) in
      let kept : c_string (take 254 (movie_line id title values)) ≡ movie_line id title values =
        ap c_string (take-all 254 _ short) ∙ whole in
      read_movie-some (movie_line id title values) (movie_line id title values) kept
        (strtok_before 32 id _ i) (strtok_before 123 (title ++ 32 ∷ []) (join values) longer)
        (profile_of-join values v count)
      ∙ ap
          (λ name. some (record {
            movie_id = atoi id;
            title = name;
            profile =
                normalize scores reals (map strtod values)
                  (squares scores.zero (map strtod values));
          }))
          (stripped title)
