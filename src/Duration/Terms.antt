-- ===== src/Duration/Terms.antt =====
-- How ParseDuration reads the terms of a text, for duration/string.go.
use windowframe.Prelude.{
  ℕ, ◌+◌, ◌-◌, ◌*◌, ◌/◌, ◌%◌, ◌^◌, ◌≤◌, ◌<◌, ◌≡◌, refl, ap, ◌∙◌, ◌==◌, ==_iff, ℕ_comparable, Bool,
  true, false, ◌&&◌, Option, some, [], ◌∷◌, ◌++◌, length, ltb, ℤ, pos, if◌then◌else◌, arith,
}
use windowframe.Text.{Bytes, is_digit, decimal, number}
use windowframe.Text.Decimal.{AllDigits, decimal-AllDigits, number-decimal, decimal_cons}
use windowframe.Text.Replace.{Lacks, Lacks-append, AllDigits-Lacks, find_lacking}
use windowframe.Duration.{
  Place, whole, unit, unit_of, add_term, parse_terms, parse_duration, expand_days, with_days,
  go_text, each, days_to_hours, hours_to_days,
}

le-number : (v : ℕ) (ds : Bytes) → v ≤ number v ds
le-number v [] = omega arith
le-number v (c ∷ ds) = omega (arith, le-number (v * 10 + (c - b'0')) ds)

both_or : (b c : Bool) (x y : Option ℤ) → c ≡ false → (if b && c then x else y) ≡ y
both_or true c x y e = rw e refl
both_or false c x y e = refl

no_sign : (e sign : ℕ) → is_digit e ≡ true → is_digit sign ≡ false → (e == sign) ≡ false
no_sign e sign digit apart = ground (arith, ==_iff e sign)

abbrev pub tail_text : ℕ → Bytes
tail_text n = decimal (n / 60 % 60) ++ b'm' ∷ (decimal (n % 60) ++ b's' ∷ [])

abbrev pub nanos : ℕ
nanos = 10 ^ 9

pub Lacks-decimal :
    (b n : ℕ) (s : Bytes) → is_digit b ≡ false → Lacks b s → Lacks b (decimal n ++ s)
Lacks-decimal b n s apart h =
    Lacks-append b (decimal n) s (AllDigits-Lacks b (decimal n) apart (decimal-AllDigits n)) h

pub unchanged : (s : Bytes) → Lacks b'h' s → Lacks b'd' s → (with_days s ≡ s) × (expand_days s ≡ s)
unfolding with_days expand_days
unchanged s no_h no_d = (
  ap (λ l. each hours_to_days l s) (find_lacking b'h' [] s no_h),
  ap (λ l. each days_to_hours l s) (find_lacking b'd' [] s no_d),
)

pub Lacks-tail :
    (b n : ℕ)
    → is_digit b ≡ false
    → (b == b'm') ≡ false
    → (b == b's') ≡ false
    → Lacks b (tail_text n)
Lacks-tail b n apart no_m no_s =
    Lacks-decimal b (n / 60 % 60) _ apart (no_m, Lacks-decimal b (n % 60) _ apart (no_s, tt))

pub short_text :
    (n : ℕ)
    → n < 3600
    → go_text n ≡ (if ltb n 60 then decimal (n % 60) ++ b's' ∷ [] else tail_text n)
unfolding go_text
short_text n h = ground arith

pub long_text : (n : ℕ) → 3600 ≤ n → go_text n ≡ decimal (n / 3600) ++ b'h' ∷ tail_text n
unfolding go_text
long_text n h = ground arith

module _ (fraction : Bytes → ℕ → ℕ) where
  abbrev pub terms : ℕ → Place → Bytes → Option ℕ
  terms = parse_terms fraction

  read_digit :
      (d v c : ℕ) (pre : Bool) (s : Bytes)
      → is_digit c ≡ true
      → v * 10 + (c - b'0') ≤ 2 ^ 63
      → terms d (whole v pre) (c ∷ s) ≡ terms d (whole (v * 10 + (c - b'0')) true) s
  unfolding parse_terms
  read_digit d v c pre s h fits = ground arith

  read_digits :
      (d v c : ℕ) (pre : Bool) (ds s : Bytes)
      → AllDigits (c ∷ ds)
      → number v (c ∷ ds) ≤ 2 ^ 63
      → terms d (whole v pre) (c ∷ ds ++ s) ≡ terms d (whole (number v (c ∷ ds)) true) s
  read_digits d v c pre [] s (h, _) fits = read_digit d v c pre s h fits
  read_digits d v c pre (e ∷ ds) s (h, hs) fits =
      read_digit d v c pre (e ∷ ds ++ s) h (omega (arith, le-number (v * 10 + (c - b'0')) (e ∷ ds)))
      ∙ read_digits d (v * 10 + (c - b'0')) e true ds s hs fits

  read_number :
      (d v : ℕ) (s : Bytes)
      → v ≤ 2 ^ 63
      → terms d (whole 0 false) (decimal v ++ s) ≡ terms d (whole v true) s
  read_number d v s fits =
      by_text (decimal v) (decimal-AllDigits v) (decimal_cons v) (number-decimal v)
    where
      by_text :
          (ds : Bytes)
          → AllDigits ds
          → ((c : ℕ) × (t : Bytes) × (ds ≡ c ∷ t))
          → number 0 ds ≡ v
          → terms d (whole 0 false) (ds ++ s) ≡ terms d (whole v true) s
      by_text [] digits (c, t, e) same = cc
      by_text (c ∷ ds) digits e same =
          read_digits d 0 c false ds s digits (omega (arith, same))
          ∙ ap (λ k. terms d (whole k true) s) same

  ends_unit :
      (d v u k : ℕ)
      → unit_of (u ∷ []) ≡ some k
      → v ≤ 2 ^ 63 / k
      → v * k ≤ 2 ^ 63
      → d + v * k ≤ 2 ^ 63
      → add_term fraction d v [] (u ∷ []) ≡ some (d + v * k)
  unfolding add_term
  ends_unit d v u k is_unit small fits total = rw is_unit (ground arith)

  -- The byte after a unit starts the next term.
  read_unit :
      (d v u c : ℕ) (s : Bytes) (e : ℕ)
      → is_digit c ≡ true
      → add_term fraction d v [] (u ∷ []) ≡ some e
      → terms d (unit v [] (u ∷ [])) (c ∷ s) ≡ terms e (whole 0 false) (c ∷ s)
  unfolding parse_terms
  read_unit d v u c s e digit value = ground arith

  last_unit :
      (d v u e : ℕ)
      → add_term fraction d v [] (u ∷ []) ≡ some e
      → terms d (unit v [] (u ∷ [])) [] ≡ some e
  unfolding parse_terms
  last_unit d v u e value = value

  -- A term of go_text, and the number behind it.
  read_term :
      (d v u k w : ℕ) (s : Bytes)
      → ((t : Bytes) → terms d (whole v true) (u ∷ t) ≡ terms d (unit v [] (u ∷ [])) t)
      → unit_of (u ∷ []) ≡ some k
      → v ≤ 2 ^ 63
      → v ≤ 2 ^ 63 / k
      → v * k ≤ 2 ^ 63
      → d + v * k ≤ 2 ^ 63
      → terms d (whole 0 false) (decimal v ++ u ∷ (decimal w ++ s))
        ≡ terms (d + v * k) (whole 0 false) (decimal w ++ s)
  read_term d v u k w s to_unit is_unit bound small fits total =
      by_text (decimal w) (decimal-AllDigits w) (decimal_cons w)
    where
      by_text :
          (ds : Bytes)
          → AllDigits ds
          → ((c : ℕ) × (t : Bytes) × (ds ≡ c ∷ t))
          → terms d (whole 0 false) (decimal v ++ u ∷ (ds ++ s))
            ≡ terms (d + v * k) (whole 0 false) (ds ++ s)
      by_text [] digits (c, t, e) = cc
      by_text (c ∷ ds) digits e =
          read_number d v (u ∷ c ∷ (ds ++ s)) bound
          ∙ to_unit (c ∷ ds ++ s)
          ∙ read_unit d v u c (ds ++ s) (d + v * k) digits.0
              (ends_unit d v u k is_unit small fits total)

  last_term :
      (d v u k : ℕ)
      → ((t : Bytes) → terms d (whole v true) (u ∷ t) ≡ terms d (unit v [] (u ∷ [])) t)
      → unit_of (u ∷ []) ≡ some k
      → v ≤ 2 ^ 63
      → v ≤ 2 ^ 63 / k
      → v * k ≤ 2 ^ 63
      → d + v * k ≤ 2 ^ 63
      → terms d (whole 0 false) (decimal v ++ u ∷ []) ≡ some (d + v * k)
  last_term d v u k to_unit is_unit bound small fits total =
      read_number d v (u ∷ []) bound
      ∙ to_unit []
      ∙ last_unit d v u (d + v * k) (ends_unit d v u k is_unit small fits total)

  to_hours :
      (d v : ℕ) (t : Bytes) → terms d (whole v true) (b'h' ∷ t) ≡ terms d (unit v [] (b'h' ∷ [])) t
  unfolding parse_terms
  to_hours d v t = refl

  to_minutes :
      (d v : ℕ) (t : Bytes) → terms d (whole v true) (b'm' ∷ t) ≡ terms d (unit v [] (b'm' ∷ [])) t
  unfolding parse_terms
  to_minutes d v t = refl

  to_seconds :
      (d v : ℕ) (t : Bytes) → terms d (whole v true) (b's' ∷ t) ≡ terms d (unit v [] (b's' ∷ [])) t
  unfolding parse_terms
  to_seconds d v t = refl

  pub seconds_read :
      (d v : ℕ)
      → v < 60
      → d + v * nanos ≤ 2 ^ 63
      → terms d (whole 0 false) (decimal v ++ b's' ∷ []) ≡ some (d + v * nanos)
  seconds_read d v small total =
      last_term d v b's' nanos (to_seconds d v) refl (omega arith) (omega arith) (omega arith) total

  pub minutes_read :
      (d m v : ℕ)
      → m < 60
      → v < 60
      → d + m * (60 * nanos) + v * nanos ≤ 2 ^ 63
      → terms d (whole 0 false) (decimal m ++ b'm' ∷ (decimal v ++ b's' ∷ []))
        ≡ some (d + m * (60 * nanos) + v * nanos)
  minutes_read d m v small_m small total =
      read_term d m b'm' (60 * nanos) v (b's' ∷ []) (to_minutes d m) refl (omega arith)
        (omega arith) (omega arith) (omega arith)
      ∙ seconds_read (d + m * (60 * nanos)) v small total

  -- hours twice, as expand_days leaves them
  pub hours_read :
      (a b m v : ℕ)
      → m < 60
      → v < 60
      → a * (3600 * nanos) + b * (3600 * nanos) + m * (60 * nanos) + v * nanos ≤ 2 ^ 63
      → terms 0
          (whole 0 false)
          (decimal a ++ b'h' ∷ (decimal b ++ b'h' ∷ (decimal m ++ b'm' ∷ (decimal v ++ b's' ∷ []))))
        ≡ some (0 + a * (3600 * nanos) + b * (3600 * nanos) + m * (60 * nanos) + v * nanos)
  hours_read a b m v small_m small total =
      read_term 0 a b'h' (3600 * nanos) b _ (to_hours 0 a) refl (omega arith) (omega arith)
        (omega arith) (omega arith)
      ∙ read_term (0 + a * (3600 * nanos)) b b'h' (3600 * nanos) m _
          (to_hours (0 + a * (3600 * nanos)) b) refl (omega arith) (omega arith) (omega arith)
          (omega arith)
      ∙ minutes_read (0 + a * (3600 * nanos) + b * (3600 * nanos)) m v small_m small (omega arith)

  unsigned :
      (e f d : ℕ) (t : Bytes)
      → is_digit e ≡ true
      → terms 0 (whole 0 false) (e ∷ f ∷ t) ≡ some d
      → d ≤ 2 ^ 63 - 1
      → parse_duration fraction (e ∷ f ∷ t) ≡ some (pos d)
  unfolding parse_duration
  unsigned e f d t digit read fits =
      rw (no_sign e b'-' digit refl, no_sign e b'+' digit refl)
        (both_or (e == b'0') (length (f ∷ t) == 0) (some (pos 0)) _ (ground arith)
          ∙ rw read (ground arith))

  -- A text that starts with a digit, and has more, has no sign.
  pub parse_unsigned :
      (n d : ℕ) (c : ℕ) (s : Bytes)
      → terms 0 (whole 0 false) (decimal n ++ c ∷ s) ≡ some d
      → d ≤ 2 ^ 63 - 1
      → parse_duration fraction (decimal n ++ c ∷ s) ≡ some (pos d)
  parse_unsigned n d c s read fits = by_text (decimal n) (decimal-AllDigits n) (decimal_cons n) read
    where
      by_text :
          (ds : Bytes)
          → AllDigits ds
          → ((e : ℕ) × (t : Bytes) × (ds ≡ e ∷ t))
          → terms 0 (whole 0 false) (ds ++ c ∷ s) ≡ some d
          → parse_duration fraction (ds ++ c ∷ s) ≡ some (pos d)
      by_text [] digits (e, t, q) read = cc
      by_text (e ∷ []) (h, _) q read = unsigned e c d s h read fits
      by_text (e ∷ f ∷ ds) (h, _) q read = unsigned e f d (ds ++ c ∷ s) h read fits
