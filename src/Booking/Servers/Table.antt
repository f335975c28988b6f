-- ===== src/Booking/Servers/Table.antt =====
-- A table of locks that behaves as `Fcntl` says: the last entry of a process for a record counts.
use system_programming_hw.Common.{
  ℕ, ◌≡◌, ◌≢◌, refl, Bool, true, false, not, ◌&&◌, List, [], ◌∷◌, ◌==◌, ◌⊎◌, inl, inr,
  if◌then◌else◌, arith, Bool-cases,
}
use system_programming_hw.Booking.Session.{LockType, f_rdlck, f_wrlck, f_unlck}
use system_programming_hw.Booking.Writer.{is_unlocked}
use system_programming_hw.Booking.Servers.{Fcntl, conflicts}

pub record Entry : Type 0 where
  pub owner : ℕ
  pub place : ℕ
  pub type : LockType

abbrev is_for : ℕ → ℕ → Entry → Bool
is_for p k e = e.owner == p && e.place == k

-- The lock of process `p` on record `k`.
unfoldable pub held : List Entry → ℕ → ℕ → LockType
held [] p k = f_unlck
held (e ∷ l) p k = if is_for p k e then e.type else held l p k

-- The first lock in the way, among the owners of `es`.
unfoldable pub blocker : List Entry → List Entry → ℕ → ℕ → LockType → LockType
unfolding held
blocker l [] p k t = f_unlck
blocker l (e ∷ es) p k t =
    if not (e.owner == p) && conflicts (held l e.owner k) t
    then held l e.owner k
    else blocker l es p k t

unfoldable pub getlk : List Entry → ℕ → ℕ → LockType → LockType
unfolding blocker
getlk l p k t = blocker l l p k t

unfoldable pub setlk : List Entry → ℕ → ℕ → LockType → List Entry
unfolding getlk
setlk l p k t =
    if is_unlocked (getlk l p k t) then record { owner = p; place = k; type = t } ∷ l else l

conflicts_locked : (a t : LockType) → conflicts a t ≡ true → a ≢ f_unlck
conflicts_locked f_unlck t h = cc
conflicts_locked f_rdlck t h = λ e. cc
conflicts_locked f_wrlck t h = λ e. cc

is_unlocked-ne : (t : LockType) → t ≢ f_unlck → is_unlocked t ≡ false
is_unlocked-ne f_unlck h = absurd (h refl)
is_unlocked-ne f_rdlck h = refl
is_unlocked-ne f_wrlck h = refl

-- Where no entry of `es` is in the way, no owner of `es` is.
blocker_free :
    (l es : List Entry) (p k : ℕ) (t : LockType)
    → blocker l es p k t ≡ f_unlck
    → (q : ℕ) → p ≢ q
    → (conflicts (held l q k) t ≡ false) ⊎ (held es q k ≡ f_unlck)
unfolding blocker held
blocker_free l [] p k t h q ne = inr refl
blocker_free l (e ∷ es) p k t h q ne =
    elim (Bool-cases (not (e.owner == p) && conflicts (held l e.owner k) t)) [
      | inl found ↦ absurd (conflicts_locked (held l e.owner k) t (ground arith) (rw found at h))
      | inr past ↦ elim (blocker_free l es p k t (rw past at h) q ne) [
        | inl c ↦ inl c
        | inr none_held ↦ elim (Bool-cases (is_for q k e)) [
          | inl own ↦ inl (ground arith)
          | inr other ↦ inr (rw other none_held)
        ]
      ]
    ]

blocker_holder :
    (l es : List Entry) (p k : ℕ) (t : LockType)
    → blocker l es p k t ≢ f_unlck
    → (q : ℕ) × (held l q k ≡ blocker l es p k t) × (conflicts (held l q k) t ≡ true)
unfolding blocker
blocker_holder l [] p k t h = absurd (h refl)
blocker_holder l (e ∷ es) p k t h =
    elim (Bool-cases (not (e.owner == p) && conflicts (held l e.owner k) t)) [
      | inl found ↦ rw found (e.owner, refl, ground arith)
      | inr past ↦ rw past (blocker_holder l es p k t (rw past at h))
    ]

unlck_free : (a t : LockType) → a ≡ f_unlck → conflicts a t ≡ false
unlck_free f_unlck t e = refl
unlck_free f_rdlck t e = cc
unlck_free f_wrlck t e = cc

pub getlk_free :
    (l : List Entry) (p k : ℕ) (t : LockType)
    → getlk l p k t ≡ f_unlck
    → (q : ℕ) → p ≢ q
    → conflicts (held l q k) t ≡ false
unfolding getlk
getlk_free l p k t h q ne = elim (blocker_free l l p k t h q ne) [
  | inl c ↦ c
  | inr none_held ↦ unlck_free (held l q k) t none_held
]

pub getlk_holder :
    (l : List Entry) (p k : ℕ) (t : LockType)
    → getlk l p k t ≢ f_unlck
    → (q : ℕ) × (held l q k ≡ getlk l p k t) × (conflicts (held l q k) t ≡ true)
unfolding getlk
getlk_holder l p k t h = blocker_holder l l p k t h

pub setlk_grant :
    (l : List Entry) (p k : ℕ) (t : LockType)
    → getlk l p k t ≡ f_unlck
    → held (setlk l p k t) p k ≡ t
unfolding setlk held
setlk_grant l p k t h = ground arith

pub setlk_refuse :
    (l : List Entry) (p k : ℕ) (t : LockType) → getlk l p k t ≢ f_unlck → setlk l p k t ≡ l
unfolding setlk
setlk_refuse l p k t h = rw (is_unlocked-ne (getlk l p k t) h) refl

pub setlk_process :
    (l : List Entry) (p k : ℕ) (t : LockType) (q j : ℕ)
    → p ≢ q
    → held (setlk l p k t) q j ≡ held l q j
unfolding setlk held
setlk_process l p k t q j ne = elim (Bool-cases (is_unlocked (getlk l p k t))) [
  | inl free ↦ rw free (ground arith)
  | inr taken ↦ rw taken refl
]

pub setlk_record :
    (l : List Entry) (p k : ℕ) (t : LockType) (q j : ℕ)
    → k ≢ j
    → held (setlk l p k t) q j ≡ held l q j
unfolding setlk held
setlk_record l p k t q j ne = elim (Bool-cases (is_unlocked (getlk l p k t))) [
  | inl free ↦ rw free (ground arith)
  | inr taken ↦ rw taken refl
]

abbrev pub table : Fcntl
table = record {
  Locks = List Entry;
  held = held;
  getlk = getlk;
  setlk = setlk;
  getlk_free = getlk_free;
  getlk_holder = getlk_holder;
  setlk_grant = setlk_grant;
  setlk_refuse = setlk_refuse;
  setlk_process = setlk_process;
  setlk_record = setlk_record;
}
