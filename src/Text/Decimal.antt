-- ===== src/Text/Decimal.antt =====
-- Decimal digits spell their number.
use windowframe.Prelude.{
  ℕ, zero, suc, ◌+◌, ◌-◌, ◌*◌, ◌/◌, ◌%◌, ◌<◌, ◌≡◌, refl, ◌∙◌, ℕ_comparable, Bool-cases, inl, inr,
  true, false, [], ◌∷◌, ◌++◌, ltb, arith,
}
use windowframe.Text.{Bytes, is_digit, decimal_from, decimal, number}

abbrev pub AllDigits : Bytes → Type 0
AllDigits [] = Unit
AllDigits (c ∷ s) = (is_digit c ≡ true) × AllDigits s

pub AllDigits-append : (xs ys : Bytes) → AllDigits xs → AllDigits ys → AllDigits (xs ++ ys)
AllDigits-append [] ys hx hy = hy
AllDigits-append (x ∷ xs) ys (hx, hxs) hy = (hx, AllDigits-append xs ys hxs hy)

number-append :
    (n : ℕ) (xs : Bytes) (c : ℕ) → number n (xs ++ c ∷ []) ≡ number n xs * 10 + (c - b'0')
number-append n [] c = refl
number-append n (x ∷ xs) c = number-append (n * 10 + (x - b'0')) xs c

last_digit : (n : ℕ) → is_digit (b'0' + n % 10) ≡ true
last_digit n = ground arith

decimal_small : (fuel n : ℕ) → ltb n 10 ≡ true → decimal_from (suc fuel) n ≡ (b'0' + n % 10) ∷ []
unfolding decimal_from
decimal_small fuel n e = ground arith

decimal_large :
    (fuel n : ℕ)
    → ltb n 10 ≡ false
    → decimal_from (suc fuel) n ≡ decimal_from fuel (n / 10) ++ (b'0' + n % 10) ∷ []
unfolding decimal_from
decimal_large fuel n e = ground arith

decimal_from-AllDigits : (fuel n : ℕ) → AllDigits (decimal_from fuel n)
decimal_from-AllDigits zero n = unfold decimal_from in tt
decimal_from-AllDigits (suc fuel) n = elim (Bool-cases (ltb n 10)) [
  | inl small ↦ rw (decimal_small fuel n small) (last_digit n, tt)
  | inr large ↦ rw (decimal_large fuel n large) (
      AllDigits-append (decimal_from fuel (n / 10)) _ (decimal_from-AllDigits fuel (n / 10))
        (last_digit n, tt))
]

pub decimal-AllDigits : (n : ℕ) → AllDigits (decimal n)
unfolding decimal
decimal-AllDigits n = decimal_from-AllDigits (suc n) n

number-decimal_from : (fuel n : ℕ) → n < fuel → number 0 (decimal_from fuel n) ≡ n
number-decimal_from zero n h = absurd (omega arith)
number-decimal_from (suc fuel) n h = elim (Bool-cases (ltb n 10)) [
  | inl small ↦ rw (decimal_small fuel n small) (ground arith)
  | inr large ↦ rw (decimal_large fuel n large) (
      number-append 0 (decimal_from fuel (n / 10)) (b'0' + n % 10)
      ∙ ground (arith, number-decimal_from fuel (n / 10)))
]

-- The digits of a number spell it.
pub number-decimal : (n : ℕ) → number 0 (decimal n) ≡ n
unfolding decimal
number-decimal n = number-decimal_from (suc n) n (omega arith)

-- A text of one byte at least
pub decimal_cons : (n : ℕ) → (c : ℕ) × (s : Bytes) × (decimal n ≡ c ∷ s)
unfolding decimal
decimal_cons n = elim (Bool-cases (ltb n 10)) [
  | inl small ↦ rw (decimal_small n n small) ((b'0' + n % 10), [], refl)
  | inr large ↦ rw (decimal_large n n large) (front (decimal_from n (n / 10)) (b'0' + n % 10))
]
  where
    front : (xs : Bytes) (d : ℕ) → (c : ℕ) × (s : Bytes) × (xs ++ d ∷ [] ≡ c ∷ s)
    front [] d = (d, [], refl)
    front (x ∷ xs) d = (x, xs ++ d ∷ [], refl)
