-- ===== src/Movies/Input/Bounds.antt =====
-- The sizes of what `initialize` reads.
use system_programming_hw.Common.{
  ℕ, zero, suc, ◌+◌, ◌-◌, ◌≤◌, ◌<◌, ◌≡◌, refl, ap, ◌∙◌, List, [], ◌∷◌, Option, none, some, length,
  take, ltb, All, arith, Bool-cases, inl, inr, Every, Every-bind, Every-all, length-take,
  length-map,
}
use system_programming_hw.Common.Int.{ℤ, pos, negsuc}
use system_programming_hw.Text.{c_string}
use system_programming_hw.Text.Numbers.{length-c_string}
use system_programming_hw.Movies.Score.{Scores}
use system_programming_hw.Movies.Request.{MovieProfile, Request}
use system_programming_hw.Movies.Input.{
  Reals, skip_delim, token, token_of, strtok, fgets_loop, fgets, genres, normalize, profile_of,
  read_movie, read_movies, read_request, read_requests, initialize, at_most_32, number_of_reqs,
  scan_number, scan_word,
}

length-skip_delim : (d : ℕ) (s : List ℕ) → length (skip_delim d s) ≤ length s
unfolding skip_delim
length-skip_delim d [] = omega arith
length-skip_delim d (c ∷ s) = ground (arith, length-skip_delim d s)

length-token :
    (d : ℕ) (s : List ℕ) → (length (token d s).0 ≤ length s) × (length (token d s).1 ≤ length s)
unfolding token
length-token d [] = (omega arith, omega arith)
length-token d (c ∷ s) = ground (arith, length-token d s)

-- A token, and what is left of a text after it, are no longer than `n`.
abbrev Shorter : ℕ → List ℕ × List ℕ → Type 0
Shorter n (t, rest) = (length t ≤ n) × (length rest ≤ n)

length-token_of : (d : ℕ) (s : List ℕ) → Every (Shorter (length s)) (token_of d s)
unfolding token_of
length-token_of d [] = tt
length-token_of d (c ∷ s) = length-token d (c ∷ s)

Shorter-le :
    (m n : ℕ) → m ≤ n → (o : Option (List ℕ × List ℕ)) → Every (Shorter m) o → Every (Shorter n) o
Shorter-le m n le none h = tt
Shorter-le m n le (some (t, rest)) h = (omega (arith, h.0), omega (arith, h.1))

length-strtok : (d : ℕ) (s : List ℕ) → Every (Shorter (length s)) (strtok d s)
unfolding strtok
length-strtok d s =
    Shorter-le (length (skip_delim d s)) (length s) (length-skip_delim d s) _
      (length-token_of d (skip_delim d s))

length-fgets_loop :
    (n : ℕ) (s : List ℕ) → (length (fgets_loop n s).0 ≤ n) × (length (fgets_loop n s).1 ≤ length s)
unfolding fgets_loop
length-fgets_loop zero s = (omega arith, omega arith)
length-fgets_loop (suc n) [] = (omega arith, omega arith)
length-fgets_loop (suc n) (c ∷ s) = ground (arith, length-fgets_loop n s)

module _ (scores : Scores) (reals : Reals scores) where
  open scores use {Score}

  length-genres :
      (n : ℕ) (t : Option (List ℕ × List ℕ)) (sum : Score)
      → Every (λ (values, total). length values ≡ n) (genres scores reals n t sum)
  unfolding genres
  length-genres zero t sum = refl
  length-genres (suc n) none sum = tt
  length-genres (suc n) (some (t, rest)) sum =
      Every-bind (λ (values, total). length values ≡ n) (λ (values, total). length values ≡ suc n)
        (genres scores reals n (strtok 44 rest) _) _ (length-genres n (strtok 44 rest) _)
        (λ a h. ap suc h)

  length-profile_of :
      (t : Option (List ℕ × List ℕ)) → Every (λ p. length p ≡ 19) (profile_of scores reals t)
  unfolding profile_of genres normalize
  length-profile_of t =
      Every-bind (λ (values, total). length values ≡ 19) (λ p. length p ≡ 19)
        (genres scores reals 19 t scores.zero) _ (length-genres 19 t scores.zero)
        (λ a h. length-map _ a.0 ∙ h)

  -- A movie as `initialize` keeps it, and a request.
  abbrev pub IsMovie : MovieProfile scores → Type 0
  IsMovie m = (length m.title < 255) × (length m.profile ≡ 19)

  abbrev pub IsRequest : Request scores → Type 0
  IsRequest r = length r.profile ≡ 19

  read_movie-IsMovie : (chunk : List ℕ) → Every IsMovie (read_movie scores reals chunk)
  unfolding read_movie
  read_movie-IsMovie chunk =
      let line = c_string (take 254 chunk) in
      Every-bind (Shorter (length line)) IsMovie (strtok 32 line) _ (length-strtok 32 line) (λ a h.
        Every-bind (Shorter (length a.1)) IsMovie (strtok 123 a.1) _ (length-strtok 123 a.1) (λ b k.
          Every-bind (λ p. length p ≡ 19) IsMovie (profile_of scores reals (strtok 44 b.1)) _
            (length-profile_of (strtok 44 b.1))
            (λ p l. (
              omega (
                arith,
                length-take 254 chunk,
                length-c_string (take 254 chunk),
                h.1,
                k.0,
                length-take (length b.0 - 1) b.0,
              ),
              l,
            ))))

  abbrev FitsIn : ℕ → List (MovieProfile scores) → Type 0
  FitsIn room ms = (length ms ≤ room) × All IsMovie ms

  read_movies-FitsIn :
      (fuel cnt : ℕ) (file : List ℕ)
      → cnt ≤ 70000
      → Every (FitsIn (70000 - cnt)) (read_movies scores reals fuel cnt file)
  unfolding read_movies
  read_movies-FitsIn zero cnt file h = tt
  read_movies-FitsIn (suc fuel) cnt [] h = (omega arith, tt)
  read_movies-FitsIn (suc fuel) cnt (c ∷ s) h =
      let line = (fgets_loop 254 (c ∷ s)).0 in
      let rest = (fgets_loop 254 (c ∷ s)).1 in
      elim (Bool-cases (ltb cnt 70000)) [
        | inl room ↦
            let below : cnt < 70000 = ground arith in
            rw room (
              Every-bind IsMovie (FitsIn (70000 - cnt)) (read_movie scores reals line) _
                (read_movie-IsMovie line)
                (λ m k.
                  Every-bind (FitsIn (70000 - (cnt + 1))) (FitsIn (70000 - cnt))
                    (read_movies scores reals fuel (cnt + 1) rest) _
                    (read_movies-FitsIn fuel (cnt + 1) rest (omega (arith, below)))
                    (λ ms l. (omega (arith, l.0, below), (k, l.1)))))
        | inr full ↦ rw full tt
      ]

  read_request-IsRequest :
      (input : List ℕ) → Every (λ (r, rest). IsRequest r) (read_request scores reals input)
  unfolding read_request
  read_request-IsRequest input =
      Every-bind (λ a. Unit) _ (scan_number input) _ (Every-all _)
        (λ a h.
          Every-bind (λ a. Unit) _ (scan_word a.1) _ (Every-all _)
            (λ b k.
              Every-bind (λ a. Unit) _ (scan_word b.1) _ (Every-all _)
                (λ w l.
                  Every-bind (λ p. length p ≡ 19) _ (profile_of scores reals (strtok 44 w.0)) _
                    (length-profile_of (strtok 44 w.0)) (λ p e. e))))

  read_requests-IsRequest :
      (n : ℕ) (input : List ℕ)
      → Every (λ rs. (length rs ≡ n) × All IsRequest rs) (read_requests scores reals n input)
  unfolding read_requests
  read_requests-IsRequest zero input = (refl, tt)
  read_requests-IsRequest (suc n) input =
      Every-bind (λ (r, rest). IsRequest r) _ (read_request scores reals input) _
        (read_request-IsRequest input)
        (λ a h.
          Every-bind (λ rs. (length rs ≡ n) × All IsRequest rs) _ (read_requests scores reals n a.1)
            _ (read_requests-IsRequest n a.1) (λ rs k. (ap suc k.0, (h, k.1))))

  pub record IsLoaded (read : List (MovieProfile scores) × List (Request scores)) : Type 0 where
    pub movies_bound : length read.0 ≤ 70000
    pub are_movies : All IsMovie read.0
    pub requests_bound : length read.1 ≤ 32
    pub are_requests : All IsRequest read.1

  at_most_32_lem : (count : ℤ) → Every (λ n. n ≤ 32) (at_most_32 count)
  at_most_32_lem (pos n) = ground arith
  at_most_32_lem (negsuc n) = tt

  -- Whatever the file and the input, `initialize` keeps no more than 70,000 movies and 32 requests;
  -- each title is shorter than 255 bytes, and each profile has 19 values.
  pub initialize-IsLoaded :
      (file input : List ℕ) → Every IsLoaded (initialize scores reals file input)
  unfolding initialize
  initialize-IsLoaded file input =
      Every-bind (λ a. Unit) IsLoaded (fgets file) _ (Every-all _)
        (λ a h.
          Every-bind (FitsIn 70000) IsLoaded (read_movies scores reals (suc (length a.1)) 0 a.1) _
            (read_movies-FitsIn (suc (length a.1)) 0 a.1 (omega arith))
            (λ ms k.
              Every-bind (λ n. n ≤ 32) IsLoaded (at_most_32 (number_of_reqs (scan_number input)).0)
                _ (at_most_32_lem (number_of_reqs (scan_number input)).0)
                (λ n small.
                  Every-bind (λ rs. (length rs ≡ n) × All IsRequest rs) IsLoaded
                    (read_requests scores reals n (number_of_reqs (scan_number input)).1) _
                    (read_requests-IsRequest n (number_of_reqs (scan_number input)).1)
                    (λ rs l. record {
                      movies_bound = k.0;
                      are_movies = k.1;
                      requests_bound = omega (arith, l.0);
                      are_requests = l.1;
                    }))))
