-- ===== src/Http/Params.antt =====
-- http/http.go: replaceParams, which writes the parameters of echo's paths as OpenAPI does. A path is the list of
-- its bytes.
pub mod Laws
use windowframe.Prelude.{
  ℕ, ◌+◌, ◌==◌, ℕ_comparable, ◌≡◌, Bool, true, false, not, ◌&&◌, ◌||◌, List, [], ◌∷◌, ◌++◌, length,
  leb, if◌then◌else◌, arith,
}
use windowframe.Text.{Bytes, is_digit, replace_all}

-- [A-Za-z0-9-_]
abbrev pub in_name : ℕ → Bool
in_name c =
    (leb b'A' c && leb c b'Z')
    || (leb b'a' c && leb c b'z')
    || is_digit c
    || (c == b'-')
    || (c == b'_')

-- Where FindAllString of echoParams stands: outside a match, or behind a colon and some of a name.
pub data Place : Type 0 where
  outside : Place
  behind_colon : Bytes → Place

abbrev pub ended : Place → List Bytes → List Bytes
ended outside ms = ms
ended (behind_colon []) ms = ms
ended (behind_colon (c ∷ n)) ms = (b':' ∷ c ∷ n) ∷ ms

abbrev pub opens : ℕ → Place
opens c = if c == b':' then behind_colon [] else outside

abbrev pub stays : Place → ℕ → Bool
stays outside c = false
stays (behind_colon n) c = in_name c

abbrev pub moved : Place → ℕ → Place
moved outside c = opens c
moved (behind_colon n) c = if in_name c then behind_colon (n ++ c ∷ []) else opens c

unfoldable pub find_params : Place → Bytes → List Bytes
find_params p [] = ended p []
find_params p (c ∷ s) =
    let rest = find_params (moved p c) s in if stays p c then rest else ended p rest

-- One round of the loop
unfoldable pub replace_param : Bytes → Bytes → Bytes
replace_param m path = replace_all m (b'{' ∷ (replace_all (b':' ∷ []) [] m ++ b'}' ∷ [])) path

abbrev pub each_param : List Bytes → Bytes → Bytes
each_param [] path = path
each_param (m ∷ ms) path = each_param ms (replace_param m path)

-- replaceParams
unfoldable pub replace_params : Bytes → Bytes
unfolding find_params replace_param
replace_params path = each_param (find_params outside path) path
