-- ===== src/Duration/Days.antt =====
-- How duration/string.go takes days out of hours and puts them back.
use windowframe.Prelude.{
  ℕ, zero, suc, ◌+◌, ◌-◌, ◌*◌, ◌/◌, ◌%◌, ◌^◌, ◌≤◌, ◌<◌, ◌≡◌, refl, ap, ◌∙◌, ℕ_comparable,
  Bool-cases, inl, inr, true, false, [], ◌∷◌, ◌++◌, leb, pos, arith,
}
use windowframe.Text.{
  Bytes, is_digit, decimal, signed, replace_all, find_numbers, atoi, max_int, mul_int,
}
use windowframe.Text.Decimal.{AllDigits, decimal-AllDigits, number-decimal, decimal_cons}
use windowframe.Text.Replace.{Lacks, find_one, replace_number, drop_unit}
use windowframe.Duration.{
  count_of, days_to_hours, expand_days, split_days, hours_to_days, with_days, each,
}

split_step :
    (fuel days h : ℕ)
    → leb 24 h ≡ true
    → split_days (suc fuel) days h ≡ split_days fuel (suc days) (h - 24)
unfolding split_days
split_step fuel days h e = ground arith

split_end : (fuel days h : ℕ) → leb 24 h ≡ false → split_days (suc fuel) days h ≡ (days, h)
unfolding split_days
split_end fuel days h e = ground arith

none_days : (d h : ℕ) → h ≤ 0 → d ≡ d + h / 24
none_days d h p = omega arith

none_left : (h : ℕ) → h ≤ 0 → h ≡ h % 24
none_left h p = omega arith

one_day : (d h : ℕ) → 24 ≤ h → suc d + (h - 24) / 24 ≡ d + h / 24
one_day d h p = omega arith

same_rest : (h : ℕ) → 24 ≤ h → (h - 24) % 24 ≡ h % 24
same_rest h p = omega arith

few_days : (d h : ℕ) → h < 24 → d ≡ d + h / 24
few_days d h p = omega arith

few_hours : (h : ℕ) → h < 24 → h ≡ h % 24
few_hours h p = omega arith

-- The loop that takes days off the hours one by one ends within as many rounds as there are hours,
-- and gives the quotient and the remainder of the hours by 24, the days added to those it starts with.
pub split_days_divides :
    (fuel days hours : ℕ)
    → hours ≤ fuel
    → split_days fuel days hours ≡ (days + hours / 24, hours % 24)
split_days_divides zero days hours h =
    unfold split_days in λ i. (none_days days hours h i, none_left hours h i)
split_days_divides (suc fuel) days hours h = elim (Bool-cases (leb 24 hours)) [
  | inl more ↦
      split_step fuel days hours more
      ∙ split_days_divides fuel (suc days) (hours - 24) (ground arith)
      ∙ (λ i. (one_day days hours (ground arith) i, same_rest hours (ground arith) i))
  | inr less ↦
      split_end fuel days hours less
      ∙ (λ i. (few_days days hours (ground arith) i, few_hours hours (ground arith) i))
]

split_whole : (h : ℕ) → split_days h 0 h ≡ (h / 24, h % 24)
split_whole h = split_days_divides h 0 h (omega arith) ∙ (λ i. (plus_none (h / 24) i, h % 24))
  where
    plus_none : (n : ℕ) → 0 + n ≡ n
    plus_none n = omega arith

count_decimal :
    (unit n : ℕ) → is_digit unit ≡ false → n ≤ max_int → count_of unit (decimal n ++ unit ∷ []) ≡ n
unfolding atoi
count_decimal unit n apart fits =
    rw (drop_unit unit (decimal n) apart (decimal-AllDigits n), number-decimal n) (ground arith)

-- A number with its unit in front of a text without that unit is the one match, and is replaced.
one_match :
    (unit n : ℕ) (rest new : Bytes) (f : Bytes → Bytes → Bytes)
    → is_digit unit ≡ false
    → Lacks unit rest
    → ((s : Bytes) → f (decimal n ++ unit ∷ []) s ≡ replace_all (decimal n ++ unit ∷ []) new s)
    → each f (find_numbers unit [] (decimal n ++ unit ∷ rest)) (decimal n ++ unit ∷ rest)
      ≡ new ++ rest
one_match unit n rest new f apart lacks h =
    by_text (decimal n) (decimal-AllDigits n) (decimal_cons n) h
  where
    by_text :
        (ds : Bytes)
        → AllDigits ds
        → ((c : ℕ) × (s : Bytes) × (ds ≡ c ∷ s))
        → ((s : Bytes) → f (ds ++ unit ∷ []) s ≡ replace_all (ds ++ unit ∷ []) new s)
        → each f (find_numbers unit [] (ds ++ unit ∷ rest)) (ds ++ unit ∷ rest) ≡ new ++ rest
    by_text [] digits (c, s, e) h = cc
    by_text (d ∷ ds) digits e h =
        ap (λ l. each f l (d ∷ ds ++ unit ∷ rest)) (find_one unit d ds rest apart digits lacks)
        ∙ h (d ∷ ds ++ unit ∷ rest)
        ∙ replace_number unit d ds new rest lacks

pub with_days_text :
    (h : ℕ) (rest : Bytes)
    → h ≤ max_int
    → Lacks b'h' rest
    → with_days (decimal h ++ b'h' ∷ rest)
      ≡ (decimal (h / 24) ++ b'd' ∷ (decimal (h % 24) ++ b'h' ∷ [])) ++ rest
unfolding with_days
with_days_text h rest fits lacks =
    one_match b'h' h rest _ hours_to_days refl lacks
      λ s. unfold hours_to_days in rw (count_decimal b'h' h refl fits, split_whole h) refl

small_product : (d : ℕ) → d * 24 < 2 ^ 63 → mul_int d 24 ≡ pos (d * 24)
unfolding mul_int
small_product d h = ground arith

pub expand_days_text :
    (d : ℕ) (rest : Bytes)
    → d * 24 < 2 ^ 63
    → Lacks b'd' rest
    → expand_days (decimal d ++ b'd' ∷ rest) ≡ (decimal (d * 24) ++ b'h' ∷ []) ++ rest
unfolding expand_days
expand_days_text d rest fits lacks = one_match b'd' d rest _ days_to_hours refl lacks λ s.
    unfold days_to_hours signed in
    rw (count_decimal b'd' d refl (ground arith), small_product d fits) refl
