-- ===== src/Movies/Server/Serves.antt =====
-- What the two servers have written when they end.
use mathlib.Core.List.{Mem, mem-cons, Nodup, Nodup-cons, append-nil}
use mathlib.Core.Logic.Or
use system_programming_hw.Common.Int.{ℤ, eq_of_parts}
use system_programming_hw.Common.{
  ℕ, suc, ◌≤◌, ◌≡◌, refl, false, List, [], ◌∷◌, map, some, length, All, All-imp, take-all, drop-all,
  arith, Bool-cases, inl, inr,
}
use system_programming_hw.Movies.Score.{Scores}
use system_programming_hw.Movies.Select.Laws.{NonNeg}
use system_programming_hw.Movies.Merge.Laws.{IsPlainName}
use system_programming_hw.Movies.Request.{MovieProfile, Request, cross}
use system_programming_hw.Movies.Request.Laws.{
  Answers, IsFitFor, deal_request_thread-Answers, deal_request_process_sorts,
}
use system_programming_hw.Movies.Input.{Reals, initialize}
use system_programming_hw.Movies.Input.Bounds.{IsMovie, IsLoaded, initialize-IsLoaded}
use system_programming_hw.Movies.Server.{
  thread_file, process_file, same_id, shares_file, serve, batches, main_thread, main_process,
}

module _ (scores : Scores) (reals : Reals scores) where
  -- One file for each request, in their order, with its answer.
  pub data Served (movies : List (MovieProfile scores))
      : List (Request scores) → List (List ℕ × List ℕ) → Type 0 where
    all_served : Served movies [] []
    one_served :
        (r : Request scores) (rs : List (Request scores)) (text : List ℕ)
        (outs : List (List ℕ × List ℕ))
        → Answers scores r movies (some text)
        → Served movies rs outs
        → Served movies (r ∷ rs) ((thread_file r.id, text) ∷ outs)

  -- A movie with a title above the tab, and a score that is not negative.
  abbrev pub Suits : Request scores → MovieProfile scores → Type 0
  Suits r m =
      NonNeg scores (record { name = m.title; score = cross scores m.profile r.profile })
      × IsPlainName m.title

  fit_for :
      (r : Request scores) (movies : List (MovieProfile scores))
      → All (IsMovie scores reals) movies
      → All (Suits r) movies
      → All (IsFitFor scores r) movies
  fit_for r [] h k = tt
  fit_for r (m ∷ movies) h k = ((k.0.0, h.0.0, k.0.1), fit_for r movies h.1 k.1)

  ids : List (Request scores) → List ℤ
  ids rs = map (λ (r : Request scores). r.id) rs

  shares_file_new :
      (id : ℤ) (rs : List (Request scores))
      → ¬ Mem id (ids rs)
      → shares_file scores reals id rs ≡ false
  unfolding shares_file ids
  shares_file_new id [] new = refl
  shares_file_new id (q ∷ qs) new = elim (Bool-cases (same_id id q.id)) [
    | inl same ↦ absurd (new (mem-cons.1 (Or.inl (eq_of_parts id q.id (ground arith)))))
    | inr other ↦ rw (other, shares_file_new id qs (λ m. new (mem-cons.1 (Or.inr m)))) refl
  ]

  serve-Served :
      (movies : List (MovieProfile scores)) (rs : List (Request scores))
      → length movies ≤ 70000
      → Nodup (ids rs)
      → All (λ r. All (IsFitFor scores r) movies) rs
      → (outs : List (List ℕ × List ℕ)) × (serve scores reals movies rs ≡ some outs)
        × Served movies rs outs
  unfolding serve ids
  serve-Served movies [] few apart fit = ([], refl, all_served)
  serve-Served movies (r ∷ rs) few apart fit =
      let a = deal_request_thread-Answers scores movies r few fit.0 in
      let (new, later) = Nodup-cons.0 apart in
      let (outs, e, h) = serve-Served movies rs few later fit.1 in
      (
        _,
        rw (shares_file_new r.id rs new, a.printed, e) refl,
        one_served r rs _ outs
            (record { order = a.order; printed = refl; perm = a.perm; is_sorted = a.is_sorted }) h,
      )

  -- At most 32 requests are one batch.
  batches-Served :
      (movies : List (MovieProfile scores)) (rs : List (Request scores))
      → length rs ≤ 32
      → length movies ≤ 70000
      → Nodup (ids rs)
      → All (λ r. All (IsFitFor scores r) movies) rs
      → (outs : List (List ℕ × List ℕ)) × (batches scores reals (suc (length rs)) movies rs
          ≡ some outs)
        × Served movies rs outs
  unfolding batches
  batches-Served movies [] h few apart fit = ([], refl, all_served)
  batches-Served movies (r ∷ rs) h few apart fit =
      let (outs, e, served) = serve-Served movies (r ∷ rs) few apart fit in
      (
        outs,
        rw
            (
              take-all 31 rs (omega (arith, h)),
              drop-all 31 rs (omega (arith, h)),
              e,
              append-nil outs,
            )
            refl,
        served,
      )

  -- If the file and the input can be read, to movies whose titles are all above the tab and whose
  -- scores for the requests are not negative, and no two requests have the same id, the server of
  -- threads writes one file for each request, named by its id, with the sealed titles of exactly
  -- the movies that match, sorted.
  pub main_thread-Served :
      (file input : List ℕ) {movies : List (MovieProfile scores)} {reqs : List (Request scores)}
      → initialize scores reals file input ≡ some (movies, reqs)
      → Nodup (map (λ (r : Request scores). r.id) reqs)
      → All (λ r. All (Suits r) movies) reqs
      → (outs : List (List ℕ × List ℕ)) × (main_thread scores reals 1 (some file) input ≡ some outs)
        × Served movies reqs outs
  unfolding main_thread ids
  main_thread-Served file input {movies} {reqs} e apart suits =
      let loaded : IsLoaded scores reals (movies, reqs) =
        rw e at (initialize-IsLoaded scores reals file input) in
      let (outs, runs, served) =
        batches-Served movies reqs loaded.requests_bound loaded.movies_bound apart
          (All-imp _ _ reqs (λ r k. fit_for r movies loaded.are_movies k) suits) in
      (outs, rw (e, runs) refl, served)

  -- If the file and the input can be read, to movies whose titles are all above the tab and whose
  -- scores for the first request are not negative, the server of processes writes one file, named by
  -- the id of the first request, with the sealed titles of exactly the movies that match it, sorted.
  pub main_process-Answers :
      (file input : List ℕ) {movies : List (MovieProfile scores)} {r : Request scores}
      {reqs : List (Request scores)}
      → initialize scores reals file input ≡ some (movies, r ∷ reqs)
      → All (Suits r) movies
      → (text : List ℕ) × (main_process scores reals 1 (some file) input
          ≡ some (process_file r.id, text))
        × Answers scores r movies (some text)
  unfolding main_process
  main_process-Answers file input {movies} {r} {reqs} e suits =
      let loaded : IsLoaded scores reals (movies, r ∷ reqs) =
        rw e at (initialize-IsLoaded scores reals file input) in
      let a =
        deal_request_process_sorts scores movies r (fit_for r movies loaded.are_movies suits) in
      (
        _,
        rw (e, a.printed) refl,
        record { order = a.order; printed = refl; perm = a.perm; is_sorted = a.is_sorted },
      )
