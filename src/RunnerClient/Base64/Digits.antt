-- ===== src/RunnerClient/Base64/Digits.antt =====
-- The digit of each letter of the alphabet, and the letter of each digit.
use policy_witness.Base.{
  ℕ, zero, suc, ◌<◌, ◌≤◌, Bool, true, false, ◌&&◌, Option, none, some, ◌==◌, and_true, ==_true, ltb,
  ◌≡◌, refl, sym, subst, ap, inl, inr, arith, Bool-cases,
}
use policy_witness.RunnerClient.Base64.{digit, item_at, letter}

-- A test at every number below a bound.
abbrev all_below : ℕ → (ℕ → Bool) → Bool
all_below zero p = true
all_below (suc n) p = p n && all_below n p

below : (n m : ℕ) (p : ℕ → Bool) → all_below n p ≡ true → m < n → p m ≡ true
below zero m p h l = absurd (omega (arith, l))
below (suc n) m p h l = elim (Bool-cases (m == n)) [
  | inl e ↦ subst (λ k. p k ≡ true) (sym (==_true _ _ e)) (and_true _ _ h).0
  | inr f ↦ below n m p (and_true _ _ h).1 (ground (arith, f, l))
]

abbrev digit_at : ℕ → Option ℕ → Bool
digit_at c none = true
digit_at c (some m) = letter m == c && ltb m 64

abbrev is_digit : ℕ → Option ℕ → Bool
is_digit m none = false
is_digit m (some k) = k == m

digits_table : all_below 128 (λ c. digit_at c (digit c)) ≡ true
unfolding digit letter item_at
digits_table = refl

letters_table : all_below 64 (λ m. is_digit m (digit (letter m))) ≡ true
unfolding digit letter item_at
letters_table = refl

pub digit-letter : (m : ℕ) → m < 64 → digit (letter m) ≡ some m
digit-letter m l =
    go (digit (letter m)) (below 64 m (λ n. is_digit n (digit (letter n))) letters_table l)
  where
    go : (o : Option ℕ) → is_digit m o ≡ true → o ≡ some m
    go none h = cc
    go (some k) h = ap some (==_true _ _ h)

digit_past : (c : ℕ) → 128 ≤ c → digit c ≡ none
unfolding digit
digit_past c l = ground (arith, l)

pub letter-digit : (c m : ℕ) → digit c ≡ some m → (letter m ≡ c) × (m < 64)
letter-digit c m h = elim (Bool-cases (ltb c 128)) [
  | inl t ↦
      let e =
        subst (λ o. digit_at c o ≡ true) h
          (below 128 c (λ b. digit_at b (digit b)) digits_table (ground (arith, t))) in
      let p = and_true _ _ e in (==_true _ _ p.0, ground (arith, p.1))
  | inr f ↦ absurd (let p = digit_past c (ground (arith, f)) in cc)
]
