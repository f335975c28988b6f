-- ===== src/Booking/Rules/Laws.antt =====
-- When a booking command is accepted, and what `int` arithmetic does to the limit of 15 items.
use system_programming_hw.Common.{
  ℕ, suc, ◌+◌, ◌*◌, ◌≤◌, ◌<◌, ◌≡◌, refl, sym, ◌∙◌, ap, ◌↔◌, inl, inr, Bool, true, false, List, [],
  ◌∷◌, arith, length, All, Bool-cases, ltb→lt, ltb→ge, if◌then◌else◌,
}
use system_programming_hw.Common.Int.{
  ℤ, pos, pos_part, neg_part, ◌+ℤ◌, ◌≤ℤ◌, ltb_ℤ, wrap32, int_laws, +ℤ_bounds, wrap32-add,
}
use system_programming_hw.Booking.Rules.{
  Counts, too_many, below_zero, booked, within_limit, none_negative, add_all, check_booking,
}

-- The exact sum of some integers.
abbrev pub total : List ℤ → ℤ
total [] = pos 0
total (b ∷ bs) = b +ℤ total bs

-- The counts after a change, item by item, in exact arithmetic.
abbrev pub changed : Counts → List ℤ → Counts
changed (b ∷ bs) (n ∷ ns) = (b +ℤ n) ∷ changed bs ns
changed bs _ = bs

-- Three counts, none negative, at most 15 together.
pub record IsValid (counts : Counts) : Type 0 where
  pub three : length counts ≡ 3
  pub nonneg : All (λ b. pos 0 ≤ℤ b) counts
  pub limited : total counts ≤ℤ pos 15

-- A change by less than 700 million of each item, so that no sum leaves the range of `int`.
abbrev pub IsModest : ℤ → Type 0
IsModest n = (pos_part n ≤ 700000000) × (neg_part n ≤ 700000000)

pub record IsModestCommand (nums : List ℤ) : Type 0 where
  pub three : length nums ≡ 3
  pub modest : All IsModest nums

abbrev IsCount : ℤ → Type 0
IsCount b = (pos_part b ≤ 15) × (neg_part b ≡ 0)

IsCount-bounds : (b : ℤ) → pos 0 ≤ℤ b → b ≤ℤ pos 15 → IsCount b
IsCount-bounds b h k = ground arith

total_nonneg : (bs : List ℤ) → All (λ b. pos 0 ≤ℤ b) bs → pos 0 ≤ℤ total bs
total_nonneg [] h = omega arith
total_nonneg (b ∷ bs) h = omega (int_laws, total_nonneg bs h.1)

IsValid-counts : (bs : List ℤ) → All (λ b. pos 0 ≤ℤ b) bs → total bs ≤ℤ pos 15 → All IsCount bs
IsValid-counts [] h k = tt
IsValid-counts (b ∷ bs) h k = (
  IsCount-bounds b h.0 (omega (int_laws, total_nonneg bs h.1)),
  IsValid-counts bs h.1 (omega (int_laws, total_nonneg bs h.1)),
)

-- The first loop in exact arithmetic.
within_exact : ℤ → Counts → List ℤ → Bool
within_exact t (b ∷ bs) (n ∷ ns) =
    let rest = within_exact (t +ℤ b +ℤ n) bs ns in
    if ltb_ℤ (pos 15) (t +ℤ b +ℤ n) then false else rest
within_exact t _ _ = true

-- Room for the sums of `k` more items above and below `t`.
abbrev HasRoom : ℤ → ℕ → Type 0
HasRoom t k = (pos_part t + k * 700000015 < 2147483648) × (neg_part t + k * 700000015 ≤ 2147483648)

step_exact :
    (t b n : ℤ) (k : ℕ)
    → IsCount b
    → IsModest n
    → HasRoom t (suc k)
    → (wrap32 (wrap32 (t +ℤ b) +ℤ n) ≡ t +ℤ b +ℤ n) × HasRoom (t +ℤ b +ℤ n) k
step_exact t b n k hb hn r = (
  rw (wrap32-add t b (omega arith) (omega arith))
      (wrap32-add (t +ℤ b) n (omega (arith, +ℤ_bounds t b)) (omega (arith, +ℤ_bounds t b))),
  (
    omega (arith, +ℤ_bounds t b, +ℤ_bounds (t +ℤ b) n),
    omega (arith, +ℤ_bounds t b, +ℤ_bounds (t +ℤ b) n),
  ),
)

within_limit_exact :
    (t : ℤ) (bs ns : List ℤ)
    → All IsCount bs
    → All IsModest ns
    → HasRoom t (length bs)
    → within_limit t bs ns ≡ within_exact t bs ns
unfolding within_limit within_exact
within_limit_exact t [] ns hb hn r = refl
within_limit_exact t (b ∷ bs) [] hb hn r = refl
within_limit_exact t (b ∷ bs) (n ∷ ns) hb hn r =
    let (e, room) = step_exact t b n (length bs) hb.0 hn.0 r in
    rw (e, within_limit_exact (t +ℤ b +ℤ n) bs ns hb.1 hn.1 room)

-- Where no item ends below 0, the limit on every partial sum is the limit on the whole.
within_exact_iff :
    (t : ℤ) (bs ns : List ℤ)
    → length bs ≡ length ns
    → All (λ b. pos 0 ≤ℤ b) (changed bs ns)
    → t ≤ℤ pos 15
    → (within_exact t bs ns ≡ true) ↔ (t +ℤ total (changed bs ns) ≤ℤ pos 15)
unfolding within_exact
within_exact_iff t [] [] e h k = ((λ _. omega int_laws), λ _. refl)
within_exact_iff t [] (n ∷ ns) e h k = absurd (omega arith)
within_exact_iff t (b ∷ bs) [] e h k = absurd (omega arith)
within_exact_iff t (b ∷ bs) (n ∷ ns) e h k =
    let rest_nonneg = total_nonneg (changed bs ns) h.1 in
    elim (Bool-cases (ltb_ℤ (pos 15) (t +ℤ b +ℤ n))) [
      | inl above ↦
          rw above ((λ no. cc), λ le. absurd (omega (int_laws, ltb→lt _ _ above, rest_nonneg)))
      | inr below ↦
          let ih =
            within_exact_iff (t +ℤ b +ℤ n) bs ns (omega arith) h.1
              (omega (arith, ltb→ge _ _ below)) in
          rw below ((λ rest. omega (int_laws, ih.0 rest)), λ le. ih.1 (omega int_laws))
    ]

none_negative_iff :
    (bs ns : List ℤ)
    → length bs ≡ length ns
    → All IsCount bs
    → All IsModest ns
    → (none_negative bs ns ≡ true) ↔ All (λ b. pos 0 ≤ℤ b) (changed bs ns)
unfolding none_negative
none_negative_iff [] [] e hb hn = ((λ _. tt), λ _. refl)
none_negative_iff [] (n ∷ ns) e hb hn = absurd (omega arith)
none_negative_iff (b ∷ bs) [] e hb hn = absurd (omega arith)
none_negative_iff (b ∷ bs) (n ∷ ns) e hb hn = ground (
  arith,
  none_negative_iff bs ns (omega arith) hb.1 hn.1,
  wrap32-add b n (omega arith) (omega arith),
)

add_all_exact : (bs ns : List ℤ) → All IsCount bs → All IsModest ns → add_all bs ns ≡ changed bs ns
unfolding add_all
add_all_exact [] ns hb hn = refl
add_all_exact (b ∷ bs) [] hb hn = refl
add_all_exact (b ∷ bs) (n ∷ ns) hb hn =
    rw (wrap32-add b n (omega arith) (omega arith), add_all_exact bs ns hb.1 hn.1)

length-changed : (bs ns : List ℤ) → length (changed bs ns) ≡ length bs
length-changed [] ns = refl
length-changed (b ∷ bs) [] = refl
length-changed (b ∷ bs) (n ∷ ns) = ap suc (length-changed bs ns)

check_booking_lem :
    (counts nums : List ℤ)
    → check_booking counts nums ≡ (
        if within_limit (pos 0) counts nums
        then (if none_negative counts nums then booked (add_all counts nums) else below_zero)
        else too_many)
unfolding check_booking
check_booking_lem counts nums = refl

module _ (counts nums : List ℤ) (v : IsValid counts) (m : IsModestCommand nums) where
  same_length : length counts ≡ length nums
  same_length = omega (arith, v.three, m.three)

  counts-IsCount : All IsCount counts
  counts-IsCount = IsValid-counts counts v.nonneg v.limited

  limit_exact : within_limit (pos 0) counts nums ≡ within_exact (pos 0) counts nums
  limit_exact =
      within_limit_exact (pos 0) counts nums counts-IsCount m.modest (omega (arith, v.three))

  booked_if :
      IsValid (changed counts nums) → check_booking counts nums ≡ booked (changed counts nums)
  booked_if ok = rw (
    check_booking_lem counts nums,
    limit_exact,
    (within_exact_iff (pos 0) counts nums same_length ok.nonneg (omega arith)).1
        (omega (int_laws, ok.limited)),
    (none_negative_iff counts nums same_length counts-IsCount m.modest).1 ok.nonneg,
    add_all_exact counts nums counts-IsCount m.modest,
  )

  changed-IsValid :
      within_limit (pos 0) counts nums ≡ true
      → none_negative counts nums ≡ true
      → IsValid (changed counts nums)
  changed-IsValid under enough =
      let fine = (none_negative_iff counts nums same_length counts-IsCount m.modest).0 enough in
      record {
        three = omega (arith, length-changed counts nums, v.three);
        nonneg = fine;
        limited = omega (
          int_laws,
          (within_exact_iff (pos 0) counts nums same_length fine (omega arith)).0
              (sym limit_exact ∙ under),
        );
      }

  booked_only :
      (out : Counts)
      → check_booking counts nums ≡ booked out
      → (out ≡ changed counts nums) × IsValid out
  booked_only out e = elim (Bool-cases (within_limit (pos 0) counts nums)) [
    | inr over ↦ cc (rw over at (check_booking_lem counts nums))
    | inl under ↦ elim (Bool-cases (none_negative counts nums)) [
      | inr less ↦ cc (rw (under, less) at (check_booking_lem counts nums))
      | inl enough ↦
          let out_eq : out ≡ changed counts nums = cc (
            add_all_exact counts nums counts-IsCount m.modest,
            rw (under, enough) at (check_booking_lem counts nums),
          ) in
          (out_eq, rw out_eq (changed-IsValid under enough))
    ]
  ]

-- A command of three changes of at most 700 million each to a valid record is accepted with the
-- counts `out` exactly when `out` is the changed counts, in exact arithmetic, and these are valid.
pub check_booking-IsValid_iff :
    (counts nums out : List ℤ)
    → IsValid counts
    → IsModestCommand nums
    → (check_booking counts nums ≡ booked out) ↔ ((out ≡ changed counts nums) × IsValid out)
check_booking-IsValid_iff counts nums out v m = (
  booked_only counts nums v m out,
  λ (e, ok). rw (← e) at (booked_if counts nums v m (rw e at ok)),
)
