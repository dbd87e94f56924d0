-- ===== src/Duration/RoundTrip.antt =====
-- duration/string.go: a duration of whole seconds is read back from its text.
use windowframe.Prelude.{
  ℕ, ◌-◌, ◌*◌, ◌/◌, ◌%◌, ◌^◌, ◌≤◌, ◌<◌, ◌≡◌, refl, ap, ◌∙◌, Bool-cases, inl, inr, false, some, [],
  ◌∷◌, ◌++◌, ltb, pos, arith,
}
use mathlib.Core.List.{append_assoc}
use windowframe.Text.{Bytes, decimal}
use windowframe.Text.Replace.{Lacks}
use windowframe.Duration.{
  parse_duration, parse_string_duration, expand_days, with_days, go_text, text_of,
}
use windowframe.Duration.Days.{with_days_text, expand_days_text}
use windowframe.Duration.Terms.{
  tail_text, seconds_read, minutes_read, hours_read, parse_unsigned, Lacks-decimal, unchanged,
  Lacks-tail, short_text, long_text,
}

module _ (fraction : Bytes → ℕ → ℕ) where
  same_text :
      (n : ℕ) (text : Bytes)
      → go_text n ≡ text
      → Lacks b'h' text
      → Lacks b'd' text
      → parse_string_duration fraction (text_of false n) ≡ parse_duration fraction text
  unfolding text_of parse_string_duration
  same_text n text e no_h no_d =
      let (with_same, expand_same) = unchanged text no_h no_d in
      ap (λ l. parse_duration fraction (expand_days (with_days l))) e
      ∙ ap (λ l. parse_duration fraction (expand_days l)) with_same
      ∙ ap (parse_duration fraction) expand_same

  few_seconds :
      (n : ℕ) → n < 60 → parse_string_duration fraction (text_of false n) ≡ some (pos (n * 10 ^ 9))
  few_seconds n small =
      same_text n (decimal (n % 60) ++ b's' ∷ []) (short_text n (omega arith) ∙ ground arith)
        (Lacks-decimal b'h' (n % 60) _ refl (refl, tt))
        (Lacks-decimal b'd' (n % 60) _ refl (refl, tt))
      ∙ parse_unsigned fraction (n % 60) (n * 10 ^ 9) b's' []
          (seconds_read fraction 0 (n % 60) (omega arith) (omega arith) ∙ ap some (omega arith))
          (omega arith)

  few_minutes :
      (n : ℕ)
      → 60 ≤ n
      → n < 3600
      → parse_string_duration fraction (text_of false n) ≡ some (pos (n * 10 ^ 9))
  few_minutes n long small =
      same_text n (tail_text n) (short_text n small ∙ ground arith)
        (Lacks-tail b'h' n refl refl refl) (Lacks-tail b'd' n refl refl refl)
      ∙ parse_unsigned fraction (n / 60 % 60) (n * 10 ^ 9) b'm' (decimal (n % 60) ++ b's' ∷ [])
          (minutes_read fraction 0 (n / 60 % 60) (n % 60) (omega arith) (omega arith) (omega arith)
            ∙ ap some (omega arith))
          (omega arith)

  hours_text :
      (n : ℕ)
      → 3600 ≤ n
      → n * 10 ^ 9 ≤ 2 ^ 63 - 1
      → expand_days (with_days (go_text n))
        ≡ decimal (n / 3600 / 24 * 24) ++ b'h' ∷ (decimal (n / 3600 % 24) ++ b'h' ∷ tail_text n)
  hours_text n long fits =
      ap expand_days (
        ap with_days (long_text n long)
        ∙ with_days_text (n / 3600) (tail_text n) (omega arith) (Lacks-tail b'h' n refl refl refl)
        ∙ append_assoc (decimal (n / 3600 / 24)) (b'd' ∷ (decimal (n / 3600 % 24) ++ b'h' ∷ []))
            (tail_text n)
        ∙ ap (λ l. decimal (n / 3600 / 24) ++ b'd' ∷ l)
            (append_assoc (decimal (n / 3600 % 24)) (b'h' ∷ []) (tail_text n)))
      ∙ expand_days_text (n / 3600 / 24) _ (omega arith)
          (Lacks-decimal b'd' (n / 3600 % 24) _ refl (refl, Lacks-tail b'd' n refl refl refl))
      ∙ append_assoc (decimal (n / 3600 / 24 * 24)) (b'h' ∷ []) _

  many_hours :
      (n : ℕ)
      → 3600 ≤ n
      → n * 10 ^ 9 ≤ 2 ^ 63 - 1
      → parse_string_duration fraction (text_of false n) ≡ some (pos (n * 10 ^ 9))
  unfolding text_of parse_string_duration
  many_hours n long fits =
      ap (parse_duration fraction) (hours_text n long fits)
      ∙ parse_unsigned fraction (n / 3600 / 24 * 24) (n * 10 ^ 9) b'h' _
          (hours_read fraction (n / 3600 / 24 * 24) (n / 3600 % 24) (n / 60 % 60) (n % 60)
              (omega arith) (omega arith) (omega arith)
            ∙ ap some (omega arith))
          fits

  -- A StringDuration of a whole number of seconds, not negative and within int64 nanoseconds, is read back
  -- from its text: String writes the days that are in its hours, and ParseStringDuration turns them into
  -- hours again. Whatever the product of a fraction and a unit is, it is not needed.
  pub parse_string_duration-text_of :
      (n : ℕ)
      → n * 10 ^ 9 ≤ 2 ^ 63 - 1
      → parse_string_duration fraction (text_of false n) ≡ some (pos (n * 10 ^ 9))
  parse_string_duration-text_of n fits = elim (Bool-cases (ltb n 60)) [
    | inl small ↦ few_seconds n (ground arith)
    | inr minute ↦ elim (Bool-cases (ltb n 3600)) [
      | inl small ↦ few_minutes n (ground arith) (ground arith)
      | inr hour ↦ many_hours n (ground arith) fits
    ]
  ]
