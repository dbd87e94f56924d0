-- ===== src/Http/Tags.antt =====
-- http/validation/validator.go: the name that New gives a field in validation errors, from its json tag. A tag is a list of bytes;
-- an empty name makes the validator use the name of the field.
use windowframe.Prelude.{◌≡◌, refl, ap, [], ◌∷◌, ◌++◌, ◌==◌, ℕ_comparable, if◌then◌else◌}
use windowframe.Text.{Bytes}
use windowframe.Text.Replace.{Lacks}

-- strings.SplitN(tag, ",", 2)[0]
abbrev before_comma : Bytes → Bytes
before_comma [] = []
before_comma (c ∷ tag) = let rest = before_comma tag in if b',' == c then [] else c ∷ rest

abbrev unless_dash : Bytes → Bytes
unless_dash [] = []
unless_dash (c ∷ []) = if c == b'-' then [] else c ∷ []
unless_dash (c ∷ d ∷ name) = c ∷ d ∷ name

-- The function that New registers
unfoldable tag_name : Bytes → Bytes
tag_name tag = unless_dash (before_comma tag)

before_comma_lem :
    (name options : Bytes) → Lacks b',' name → before_comma (name ++ b',' ∷ options) ≡ name
before_comma_lem [] options h = refl
before_comma_lem (c ∷ name) options (h, hs) =
    rw h (ap (λ l. c ∷ l) (before_comma_lem name options hs))

-- The options behind the name of a tag do not change the name.
tag_name-append :
    (name options : Bytes) → Lacks b',' name → tag_name (name ++ b',' ∷ options) ≡ unless_dash name
unfolding tag_name
tag_name-append name options h = ap unless_dash (before_comma_lem name options h)
