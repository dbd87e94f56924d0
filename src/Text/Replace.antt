-- ===== src/Text/Replace.antt =====
-- One match in a text: finding it and replacing it.
use windowframe.Prelude.{
  ℕ, suc, ◌-◌, ◌≡◌, refl, ap, sym, ◌∙◌, ◌==◌, ==_iff, ℕ_comparable, true, false, [], ◌∷◌, ◌++◌,
  length, arith,
}
use mathlib.Core.List.{append-nil, append_assoc}
use windowframe.Text.{Bytes, is_digit, starts_with, replace_from, replace_all, find_numbers}
use windowframe.Text.Decimal.{AllDigits}

-- The byte does not occur.
abbrev pub Lacks : ℕ → Bytes → Type 0
Lacks b [] = Unit
Lacks b (c ∷ s) = ((b == c) ≡ false) × Lacks b s

pub Lacks-append : (b : ℕ) (xs ys : Bytes) → Lacks b xs → Lacks b ys → Lacks b (xs ++ ys)
Lacks-append b [] ys hx hy = hy
Lacks-append b (x ∷ xs) ys (hx, hxs) hy = (hx, Lacks-append b xs ys hxs hy)

-- A needle with a byte that the text lacks is no prefix of it.
no_prefix : (b : ℕ) (xs ys s : Bytes) → Lacks b s → starts_with (xs ++ b ∷ ys) s ≡ false
no_prefix b [] ys [] h = refl
no_prefix b [] ys (c ∷ s) h = ground arith
no_prefix b (x ∷ xs) ys [] h = refl
no_prefix b (x ∷ xs) ys (c ∷ s) h = ground (arith, no_prefix b xs ys s h.1)

from_match :
    (old new : Bytes) (c : ℕ) (s : Bytes)
    → starts_with old (c ∷ s) ≡ true
    → replace_from old new 0 (c ∷ s) ≡ new ++ replace_from old new (length old - 1) s
unfolding replace_from
from_match old new c s e = ground arith

from_other :
    (old new : Bytes) (c : ℕ) (s : Bytes)
    → starts_with old (c ∷ s) ≡ false
    → replace_from old new 0 (c ∷ s) ≡ c ∷ replace_from old new 0 s
unfolding replace_from
from_other old new c s e = ground arith

pub replace_lacking :
    (b : ℕ) (xs ys new s : Bytes) → Lacks b s → replace_all (xs ++ b ∷ ys) new s ≡ s
unfolding replace_all
replace_lacking b xs ys new [] h = unfold replace_from in refl
replace_lacking b xs ys new (c ∷ s) h =
    from_other (xs ++ b ∷ ys) new c s (no_prefix b xs ys (c ∷ s) h)
    ∙ ap (λ l. c ∷ l) (replace_lacking b xs ys new s h.1)

starts_with_self : (xs s : Bytes) → starts_with xs (xs ++ s) ≡ true
starts_with_self [] s = refl
starts_with_self (x ∷ xs) s = ground (arith, ==_iff x x, starts_with_self xs s)

skip_match :
    (old new xs s : Bytes) → replace_from old new (length xs) (xs ++ s) ≡ replace_from old new 0 s
unfolding replace_from
skip_match old new [] s = refl
skip_match old new (x ∷ xs) s = skip_match old new xs s

-- A match at the head is replaced, and the search goes on behind it.
pub replace_head :
    (o : ℕ) (old new s : Bytes)
    → replace_all (o ∷ old) new (o ∷ old ++ s) ≡ new ++ replace_all (o ∷ old) new s
unfolding replace_all
replace_head o old new s =
    from_match (o ∷ old) new o (old ++ s) (starts_with_self (o ∷ old) s)
    ∙ ap (λ l. new ++ l)
        (ap (λ k. replace_from (o ∷ old) new k (old ++ s)) (one_less (length old))
          ∙ skip_match (o ∷ old) new old s)
  where
    one_less : (n : ℕ) → suc n - 1 ≡ n
    one_less n = omega arith

-- A byte that is not the first of the match stays.
pub replace_other :
    (o : ℕ) (old new : Bytes) (c : ℕ) (s : Bytes)
    → (o == c) ≡ false
    → replace_all (o ∷ old) new (c ∷ s) ≡ c ∷ replace_all (o ∷ old) new s
unfolding replace_all
replace_other o old new c s h = from_other (o ∷ old) new c s (rw h refl)

-- A text that lacks the byte at the end of the pattern has no match.
pub find_lacking : (last : ℕ) (run s : Bytes) → Lacks last s → find_numbers last run s ≡ []
unfolding find_numbers
find_lacking last run [] h = refl
find_lacking last run (c ∷ s) h = ground (
  arith,
  find_lacking last (run ++ c ∷ []) s h.1,
  find_lacking last [] s h.1,
  ==_iff last c,
  ==_iff c last,
)

-- A run of digits is read to its end.
find_run :
    (last : ℕ) (run ds s : Bytes)
    → AllDigits ds
    → find_numbers last run (ds ++ s) ≡ find_numbers last (run ++ ds) s
unfolding find_numbers
find_run last run [] s h = ap (λ r. find_numbers last r s) (sym (append-nil run))
find_run last run (d ∷ ds) s (h, hs) = rw h (
    find_run last (run ++ d ∷ []) ds s hs
    ∙ ap (λ r. find_numbers last r s) (append_assoc run (d ∷ []) ds))

-- A number before the byte is the one match, where the rest lacks the byte.
pub find_one :
    (last d : ℕ) (ds s : Bytes)
    → is_digit last ≡ false
    → AllDigits (d ∷ ds)
    → Lacks last s
    → find_numbers last [] (d ∷ ds ++ last ∷ s) ≡ (d ∷ ds ++ last ∷ []) ∷ []
find_one last d ds s apart digits lacks = find_run last [] (d ∷ ds) (last ∷ s) digits ∙ ends
  where
    ends : find_numbers last (d ∷ ds) (last ∷ s) ≡ (d ∷ ds ++ last ∷ []) ∷ []
    ends =
        unfold find_numbers in
        rw (apart, (==_iff last last).1 refl, find_lacking last [] s lacks) (ground arith)

-- The one match in front of a text is replaced, where the rest lacks the byte at the match's end.
pub replace_number :
    (last d : ℕ) (ds new s : Bytes)
    → Lacks last s
    → replace_all (d ∷ ds ++ last ∷ []) new (d ∷ ds ++ last ∷ s) ≡ new ++ s
replace_number last d ds new s lacks =
    ap (λ l. replace_all (d ∷ ds ++ last ∷ []) new (d ∷ l)) (sym (append_assoc ds (last ∷ []) s))
    ∙ replace_head d (ds ++ last ∷ []) new s
    ∙ ap (λ l. new ++ l) (replace_lacking last (d ∷ ds) [] new s lacks)

-- Digits before the byte stay, and the byte is dropped.
pub drop_unit :
    (unit : ℕ) (ds : Bytes)
    → is_digit unit ≡ false
    → AllDigits ds
    → replace_all (unit ∷ []) [] (ds ++ unit ∷ []) ≡ ds
drop_unit unit [] apart h = unfold replace_all replace_from in ground (arith, ==_iff unit unit)
drop_unit unit (d ∷ ds) apart (h, hs) =
    replace_other unit [] [] d (ds ++ unit ∷ []) (ground (arith, ==_iff unit d))
    ∙ ap (λ l. d ∷ l) (drop_unit unit ds apart hs)

pub AllDigits-Lacks : (b : ℕ) (ds : Bytes) → is_digit b ≡ false → AllDigits ds → Lacks b ds
AllDigits-Lacks b [] apart h = tt
AllDigits-Lacks b (d ∷ ds) apart (h, hs) =
    (ground (arith, ==_iff b d), AllDigits-Lacks b ds apart hs)
