-- ===== src/Threads/System/Lists.antt =====
-- Lists of threads and of lines, with one of them at hand.
use mathlib.Core.List.{Perm, append-nil}
use mathlib.Core.List.Perm
use system_programming_hw.Common.{
  ℕ, zero, suc, ◌<◌, ◌≡◌, ◌≢◌, ◌∙◌, List, [], ◌∷◌, ◌++◌, some, length, get_elem?, set, arith,
}
use system_programming_hw.Common.Int.{ℤ}
use system_programming_hw.Threads.System.{Line, printed, caught, Signal}
use system_programming_hw.Threads.System.Inv.{printed_by, printed_by-append}

-- A list split at the index `i`, where `c` stands.
pub record Split {ℓ} {A : Type ℓ} (xs : List A) (i : ℕ) (c : A) : Type ℓ where
  pub rest : List A
  pub whole : Perm xs (c ∷ rest)
  pub changed : (x : A) → Perm (set xs i x) (x ∷ rest)
  pub within : i < length xs

pub Split-at {ℓ} :
    {A : Type ℓ} (xs : List A) (i : ℕ) {c : A} → get_elem? xs i ≡ some c → Split xs i c
Split-at [] i e = cc
Split-at (x ∷ xs) zero {c} e =
    let q : x ≡ c = cc in
    record { rest = xs; whole = rw q Perm.rfl; changed = λ y. Perm.rfl; within = omega arith }
Split-at (x ∷ xs) (suc i) {c} e =
    let tail = Split-at xs i e in
    record {
      rest = x ∷ tail.rest;
      whole = Perm.trans (Perm.cons x tail.whole) (Perm.swap c x tail.rest);
      changed = λ y. Perm.trans (Perm.cons x (tail.changed y)) (Perm.swap y x tail.rest);
      within = omega (arith, tail.within);
    }

pub printed_by-own :
    (n : ℕ) (v : ℤ) (out : List Line)
    → printed_by n (out ++ printed n v ∷ []) ≡ printed_by n out ++ v ∷ []
printed_by-own n v out = printed_by-append n out (printed n v ∷ []) ∙ ground arith

pub printed_by-other :
    (m n : ℕ) (v : ℤ) (out : List Line)
    → m ≢ n
    → printed_by n (out ++ printed m v ∷ []) ≡ printed_by n out
printed_by-other m n v out ne =
    printed_by-append n out (printed m v ∷ []) ∙ ground (arith, append-nil (printed_by n out))

pub printed_by-caught :
    (n : ℕ) (signal : Signal) (out : List Line)
    → printed_by n (out ++ caught signal ∷ []) ≡ printed_by n out
printed_by-caught n signal out =
    printed_by-append n out (caught signal ∷ []) ∙ append-nil (printed_by n out)
