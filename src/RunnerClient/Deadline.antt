-- ===== src/RunnerClient/Deadline.antt =====
-- `deadline_ticks` of controller/src/runner_client.rs. Its product is below 2 ^ 116, so the 128 bits
-- of the source hold it.
use policy_witness.Base.{
  ℕ, zero, suc, ◌+◌, ◌-◌, ◌*◌, ◌/◌, ◌^◌, ◌≤◌, ◌<◌, not, ◌&&◌, codes, Result, ok, ◌>>=◌, ◌==◌, leb,
  le_of_leb, ◌≡◌, refl, ◌⊎◌, inl, inr, arith, Bool-cases, ◌≢◌, false,
}
use native.Mathlib.Omega.{div_fact, mod_fact}
use policy_witness.RunnerClient.{require}
use policy_witness.RunnerClient.Validate.{min_of}

abbrev pub u64_max : ℕ
u64_max = 2 ^ 64 - 1

-- `div_ceil`, of a number that is not 0.
abbrev pub div_ceil : ℕ → ℕ → ℕ
div_ceil n d = (n + d - 1) / d

unfoldable pub saturating_add : ℕ → ℕ → ℕ
saturating_add m n = min_of (m + n) u64_max

unfoldable pub deadline_ticks : ℕ → ℕ → ℕ → ℕ → Result ℕ
unfolding saturating_add
deadline_ticks now milliseconds numerator denominator = do
  timebase ←
      require (not (numerator == 0) && not (denominator == 0))
        (codes "invalid continuous-clock timebase")
  let ticks = div_ceil (milliseconds * 1000000 * denominator) numerator
  ok (saturating_add now (min_of ticks u64_max))

div_ceil_lem :
    (n k : ℕ) → (n ≤ div_ceil n (suc k) * suc k) × (div_ceil n (suc k) * suc k < n + suc k)
div_ceil_lem n k =
    let d = div_fact (n + suc k - 1) k in
    let m = mod_fact (n + suc k - 1) k in (omega (arith, d, m), omega (arith, d, m))

-- The time from now in ticks, rounded up: at least as long as the nanoseconds, and less than one
-- tick longer. It is the largest number of 64 bits only where that sum is over it.
abbrev pub IsDeadline : ℕ → ℕ → ℕ → ℕ → Type 0
IsDeadline now nanoseconds numerator deadline =
    (ticks : ℕ) × ((nanoseconds ≤ ticks * numerator)
      × ((ticks * numerator < nanoseconds + numerator)
          × (((now + ticks ≤ u64_max) × (deadline ≡ now + ticks))
              ⊎ ((u64_max < now + ticks) × (deadline ≡ u64_max)))))

over : (m n : ℕ) → leb m n ≡ false → n < m
over m n h = ground (arith, h)

within_bound :
    (m n bound : ℕ)
    → ((m + n ≤ bound) × (min_of (m + min_of n bound) bound ≡ m + n))
      ⊎ ((bound < m + n) × (min_of (m + min_of n bound) bound ≡ bound))
within_bound m n bound = elim (Bool-cases (leb n bound)) [
  | inl t ↦ elim (Bool-cases (leb (m + n) bound)) [
    | inl u ↦ rw (t, u) (inl (le_of_leb (m + n) bound u, refl))
    | inr u ↦ rw (t, u) (inr (over (m + n) bound u, refl))
  ]
  | inr f ↦
      let l = over n bound f in
      elim (Bool-cases (leb (m + bound) bound)) [
        | inl u ↦
            let k = le_of_leb (m + bound) bound u in
            rw (f, u) (inr (omega (arith, l), omega (arith, k)))
        | inr u ↦ rw (f, u) (inr (omega (arith, l), refl))
      ]
]

saturated :
    (now nanoseconds k : ℕ)
    → IsDeadline now nanoseconds
        (suc k)
        (saturating_add now (min_of (div_ceil nanoseconds (suc k)) u64_max))
unfolding saturating_add
saturated now nanoseconds k =
    let ticks = div_ceil nanoseconds (suc k) in
    let long = div_ceil_lem nanoseconds k in
    (ticks, (long.0, (long.1, within_bound now ticks u64_max)))

-- Where no part of the timebase is 0 there is a deadline: the time now and as many ticks as the
-- milliseconds take, rounded up, at least as long and less than one tick longer. Only where that is
-- over the largest number of 64 bits, the deadline is that number.
pub deadline_ticks-IsDeadline :
    (now milliseconds numerator denominator : ℕ)
    → numerator ≢ 0
    → denominator ≢ 0
    → (deadline : ℕ) × ((deadline_ticks now milliseconds numerator denominator ≡ ok deadline)
        × IsDeadline now (milliseconds * 1000000 * denominator) numerator deadline)
unfolding deadline_ticks
deadline_ticks-IsDeadline now milliseconds zero denominator n d = absurd (n refl)
deadline_ticks-IsDeadline now milliseconds (suc k) zero n d = absurd (d refl)
deadline_ticks-IsDeadline now milliseconds (suc k) (suc l) n d =
    let nanoseconds = milliseconds * 1000000 * suc l in
    let deadline = saturating_add now (min_of (div_ceil nanoseconds (suc k)) u64_max) in
    let some_numerator : (suc k == 0) ≡ false = ground arith in
    let some_denominator : (suc l == 0) ≡ false = ground arith in
    (deadline, (rw (some_numerator, some_denominator) refl, saturated now nanoseconds k))
