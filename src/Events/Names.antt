-- ===== src/Events/Names.antt =====
-- events/events.go: `name`, under which the listeners of an event type are kept. A type is what reflect tells of it, and a text is
-- a list of bytes.
use windowframe.Prelude.{
  ℕ, ◌≡◌, ◌≢◌, refl, sym, ◌∙◌, ◌==◌, ==_iff, ℕ_comparable, false, not, Option, none, some, [], ◌∷◌,
  ◌++◌, length, if◌then◌else◌, arith,
}
use mathlib.Core.Option.{some-injective}
use mathlib.Core.Path.{subst}
use windowframe.Text.{Bytes}
use windowframe.Text.Replace.{Lacks}

-- A type with the path of its package and its name, declared at the level of its package (`none`) or in a function, of which
-- the types with one name are numbered; a pointer; or a type of another kind without a name
pub data GoType : Type 0 where
  named : Option ℕ → Bytes → Bytes → GoType
  pointer : GoType → GoType
  unnamed : ℕ → GoType

-- Name, PkgPath, and Elem of a pointer
abbrev pub type_name : GoType → Bytes
type_name (named scope path n) = n
type_name (pointer t) = []
type_name (unnamed k) = []

abbrev pub pkg_path : GoType → Bytes
pkg_path (named scope path n) = path
pkg_path (pointer t) = []
pkg_path (unnamed k) = []

abbrev pointer_name : GoType → Option Bytes
pointer_name (named scope path n) = none
pointer_name (pointer t) = some (b'*' ∷ (pkg_path t ++ b'.' ∷ type_name t))
pointer_name (unnamed k) = none

-- name; `none` is ErrUnknownType.
unfoldable pub name : GoType → Option Bytes
name t =
    if not (length (type_name t) == 0)
    then some (pkg_path t ++ b'/' ∷ type_name t)
    else pointer_name t

abbrev LacksFirst : ℕ → Bytes → Type 0
LacksFirst b [] = Unit
LacksFirst b (c ∷ s) = (b == c) ≡ false

-- A type of the level of its package whose name has no slash, or a pointer to one whose name has no dot; no package path starts with a star.
abbrev pub IsEventType : GoType → Type 0
IsEventType (named scope path n) =
    (scope ≡ none) × (length n ≢ 0) × Lacks b'/' n × LacksFirst b'*' path
IsEventType (pointer (named scope path n)) = (scope ≡ none) × Lacks b'.' n
IsEventType (pointer (pointer t)) = ⊥
IsEventType (pointer (unnamed k)) = ⊥
IsEventType (unnamed k) = ⊥

not_lacking : (b : ℕ) (xs ys : Bytes) → Lacks b (xs ++ b ∷ ys) → ⊥
not_lacking b [] ys (h, hs) = ground (arith, ==_iff b b)
not_lacking b (x ∷ xs) ys (h, hs) = not_lacking b xs ys hs

cons_parts : {c d : ℕ} {s t : Bytes} → c ∷ s ≡ d ∷ t → (c ≡ d) × (s ≡ t)
cons_parts e = (cc, cc)

-- A text is split at its last separator in one way.
last_split :
    (b : ℕ) (p q m n : Bytes) → Lacks b m → Lacks b n → p ++ b ∷ m ≡ q ++ b ∷ n → (p ≡ q) × (m ≡ n)
last_split b [] [] m n hm hn e = (refl, (cons_parts e).1)
last_split b [] (y ∷ q) m n hm hn e =
    absurd (not_lacking b q n (subst (Lacks b) (cons_parts e).1 hm))
last_split b (x ∷ p) [] m n hm hn e =
    absurd (not_lacking b p m (subst (Lacks b) (sym (cons_parts e).1) hn))
last_split b (x ∷ p) (y ∷ q) m n hm hn e =
    let (same, rest) = cons_parts e in
    let (path, last) = last_split b p q m n hm hn rest in (cc, last)

no_star : (path n s : Bytes) → LacksFirst b'*' path → path ++ b'/' ∷ n ≡ b'*' ∷ s → ⊥
no_star [] n s h e = let d = (cons_parts e).0 in absurd (omega (arith, d))
no_star (c ∷ path) n s h e = let d = (cons_parts e).0 in ground (arith, ==_iff b'*' c)

named_name :
    (scope : Option ℕ) (path n : Bytes)
    → length n ≢ 0
    → name (named scope path n) ≡ some (path ++ b'/' ∷ n)
unfolding name
named_name scope path n h = ground (arith, ==_iff (length n) 0)

pointed :
    (scope : Option ℕ) (path n : Bytes)
    → name (pointer (named scope path n)) ≡ some (b'*' ∷ (path ++ b'.' ∷ n))
unfolding name
pointed scope path n = refl

-- Two event types with one name are the same type, if each is declared at the level of its package with a name that has no
-- slash, or is a pointer to such a type whose name has no dot. Types that functions of one package declare under one name
-- share it, and so do all pointers to types without a name.
pub name_injective :
    (t u : GoType) (j k : ℕ) (path n : Bytes)
    → IsEventType t
    → IsEventType u
    → name t ≡ name u
    → (t ≡ u)
      × (name (named (some j) path n) ≡ name (named (some k) path n))
      × (name (pointer (unnamed j)) ≡ name (pointer (unnamed k)))
name_injective t u j k path n ht hu e = (same t u ht hu e, unfold name in refl, unfold name in refl)
  where
    same : (t u : GoType) → IsEventType t → IsEventType u → name t ≡ name u → t ≡ u
    same (named a p m) (named b q n) (top_m, some_m, lacks_m, star_p)
          (top_n, some_n, lacks_n, star_q) e =
        let texts =
          some-injective _ _ (sym (named_name a p m some_m) ∙ e ∙ named_name b q n some_n) in
        let (path, last) = last_split b'/' p q m n lacks_m lacks_n texts in cc
    same (named a p m) (pointer (named b q n)) (top_m, some_m, lacks_m, star_p) hu e = absurd (
        no_star p m (q ++ b'.' ∷ n) star_p
          (some-injective _ _ (sym (named_name a p m some_m) ∙ e ∙ pointed b q n)))
    same (pointer (named a p m)) (named b q n) ht (top_n, some_n, lacks_n, star_q) e = absurd (
        no_star q n (p ++ b'.' ∷ m) star_q
          (some-injective _ _ (sym (named_name b q n some_n) ∙ sym e ∙ pointed a p m)))
    same (pointer (named a p m)) (pointer (named b q n)) (top_m, lacks_m) (top_n, lacks_n) e =
        let texts = some-injective _ _ (sym (pointed a p m) ∙ e ∙ pointed b q n) in
        let (path, last) = last_split b'.' p q m n lacks_m lacks_n (cons_parts texts).1 in cc
    same (named a p m) (pointer (pointer _)) ht hu e = elim hu [ ]
    same (named a p m) (pointer (unnamed _)) ht hu e = elim hu [ ]
    same (named a p m) (unnamed _) ht hu e = elim hu [ ]
    same (pointer (named a p m)) (pointer (pointer _)) ht hu e = elim hu [ ]
    same (pointer (named a p m)) (pointer (unnamed _)) ht hu e = elim hu [ ]
    same (pointer (named a p m)) (unnamed _) ht hu e = elim hu [ ]
    same (pointer (pointer _)) _ ht hu e = elim ht [ ]
    same (pointer (unnamed _)) _ ht hu e = elim ht [ ]
    same (unnamed _) _ ht hu e = elim ht [ ]
