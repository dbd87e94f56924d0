-- ===== src/Http/Params/Laws.antt =====
-- What replaceParams of http/http.go makes of a path with one parameter, and of one whose name starts another.
use windowframe.Prelude.{
  ℕ, ==_iff, ℕ_comparable, ◌≡◌, refl, ap, sym, ◌∙◌, true, false, [], ◌∷◌, ◌++◌, arith,
}
use mathlib.Core.List.{append-nil, append_assoc}
use windowframe.Text.{Bytes, replace_all}
use windowframe.Text.Replace.{Lacks, Lacks-append, replace_lacking, replace_head, replace_other}
use windowframe.Http.Params.{
  in_name, outside, behind_colon, find_params, replace_param, replace_params, each_param,
}

abbrev pub AllInName : Bytes → Type 0
AllInName [] = Unit
AllInName (c ∷ s) = (in_name c ≡ true) × AllInName s

-- What may follow a name: nothing, or a byte that no name has.
abbrev pub Ends : Bytes → Type 0
Ends [] = Unit
Ends (c ∷ s) = in_name c ≡ false

AllInName-tail : (xs ys : Bytes) → AllInName (xs ++ ys) → AllInName ys
AllInName-tail [] ys h = h
AllInName-tail (x ∷ xs) ys h = AllInName-tail xs ys h.1

AllInName-Lacks : (s : Bytes) → AllInName s → Lacks b':' s
AllInName-Lacks [] h = tt
AllInName-Lacks (c ∷ s) (h, hs) = (ground (arith, ==_iff b':' c), AllInName-Lacks s hs)

find_outside :
    (pre s : Bytes) → Lacks b':' pre → find_params outside (pre ++ s) ≡ find_params outside s
unfolding find_params
find_outside [] s h = refl
find_outside (c ∷ pre) s h = ground (arith, find_outside pre s h.1, ==_iff b':' c, ==_iff c b':')

find_name :
    (n name s : Bytes)
    → AllInName name
    → find_params (behind_colon n) (name ++ s) ≡ find_params (behind_colon (n ++ name)) s
unfolding find_params
find_name n [] s h = ap (λ l. find_params (behind_colon l) s) (sym (append-nil n))
find_name n (c ∷ name) s (h, hs) = rw h (
    find_name (n ++ c ∷ []) name s hs
    ∙ ap (λ l. find_params (behind_colon l) s) (append_assoc n (c ∷ []) name))

find_end :
    (c : ℕ) (name post : Bytes)
    → Ends post
    → find_params (behind_colon (c ∷ name)) post ≡ (b':' ∷ c ∷ name) ∷ find_params outside post
unfolding find_params
find_end c name [] h = refl
find_end c name (d ∷ post) h = rw h refl

at_colon : (s : Bytes) → find_params outside (b':' ∷ s) ≡ find_params (behind_colon []) s
unfolding find_params
at_colon s = refl

-- The matches of a path with one parameter in front of the rest.
find_param :
    (pre : Bytes) (c : ℕ) (name post : Bytes)
    → Lacks b':' pre
    → AllInName (c ∷ name)
    → Ends post
    → find_params outside (pre ++ b':' ∷ c ∷ (name ++ post))
      ≡ (b':' ∷ c ∷ name) ∷ find_params outside post
find_param pre c name post no_colon names ends =
    find_outside pre _ no_colon
    ∙ at_colon (c ∷ (name ++ post))
    ∙ find_name [] (c ∷ name) post names
    ∙ find_end c name post ends

no_params : (post : Bytes) → Lacks b':' post → find_params outside post ≡ []
unfolding find_params
no_params post h = ap (find_params outside) (sym (append-nil post)) ∙ find_outside post [] h

replace_behind :
    (o : ℕ) (old new pre s : Bytes)
    → Lacks o pre
    → replace_all (o ∷ old) new (pre ++ s) ≡ pre ++ replace_all (o ∷ old) new s
replace_behind o old new [] s h = refl
replace_behind o old new (c ∷ pre) s (h, hs) =
    replace_other o old new c (pre ++ s) h ∙ ap (λ l. c ∷ l) (replace_behind o old new pre s hs)

-- The parameter's text without its colon
name_of : (name : Bytes) → AllInName name → replace_all (b':' ∷ []) [] (b':' ∷ name) ≡ name
name_of name h =
    replace_head b':' [] [] name ∙ replace_lacking b':' [] [] [] name (AllInName-Lacks name h)

abbrev braced : ℕ → Bytes → Bytes
braced c name = b'{' ∷ c ∷ (name ++ b'}' ∷ [])

param_round :
    (c : ℕ) (name path : Bytes)
    → AllInName (c ∷ name)
    → replace_param (b':' ∷ c ∷ name) path ≡ replace_all (b':' ∷ c ∷ name) (braced c name) path
unfolding replace_param
param_round c name path names =
    ap (λ l. replace_all (b':' ∷ c ∷ name) (b'{' ∷ (l ++ b'}' ∷ [])) path)
      (name_of (c ∷ name) names)

-- The first place of the parameter is replaced, and the search goes on.
first_round :
    (pre : Bytes) (c : ℕ) (name post : Bytes)
    → Lacks b':' pre
    → AllInName (c ∷ name)
    → replace_param (b':' ∷ c ∷ name) (pre ++ b':' ∷ c ∷ (name ++ post))
      ≡ pre ++ b'{' ∷ c ∷ (name ++ b'}' ∷ replace_all (b':' ∷ c ∷ name) (braced c name) post)
first_round pre c name post no_colon names =
    let after = replace_all (b':' ∷ c ∷ name) (braced c name) post in
    param_round c name _ names
    ∙ replace_behind b':' (c ∷ name) (braced c name) pre _ no_colon
    ∙ ap (λ l. pre ++ l)
        (replace_head b':' (c ∷ name) (braced c name) post
          ∙ ap (λ l. b'{' ∷ c ∷ l) (append_assoc name (b'}' ∷ []) after))

-- A path with one parameter becomes the same path with the parameter's name in braces: what stands before and
-- behind it is kept.
pub replace_params_one :
    (pre : Bytes) (c : ℕ) (name post : Bytes)
    → Lacks b':' pre
    → AllInName (c ∷ name)
    → Ends post
    → Lacks b':' post
    → replace_params (pre ++ b':' ∷ c ∷ (name ++ post)) ≡ pre ++ b'{' ∷ c ∷ (name ++ b'}' ∷ post)
unfolding replace_params
replace_params_one pre c name post no_colon names ends post_none =
    let path = pre ++ b':' ∷ c ∷ (name ++ post) in
    ap (λ l. each_param l path)
      (find_param pre c name post no_colon names ends
        ∙ ap (λ l. (b':' ∷ c ∷ name) ∷ l) (no_params post post_none))
    ∙ first_round pre c name post no_colon names
    ∙ ap (λ l. pre ++ b'{' ∷ c ∷ (name ++ b'}' ∷ l))
        (replace_lacking b':' [] (c ∷ name) (braced c name) post post_none)

Ends-at_colon : (middle s : Bytes) → Ends (middle ++ b':' ∷ []) → Ends (middle ++ b':' ∷ s)
Ends-at_colon [] s h = refl
Ends-at_colon (m ∷ middle) s h = h

in_braces :
    (c : ℕ) (name s : Bytes)
    → AllInName (c ∷ name)
    → Lacks b':' s
    → Lacks b':' (b'{' ∷ c ∷ (name ++ b'}' ∷ s))
in_braces c name s names h =
    (refl, Lacks-append b':' (c ∷ name) (b'}' ∷ s) (AllInName-Lacks (c ∷ name) names) (refl, h))

-- A path with two parameters, where the name of the second is that of the first with more behind it:
-- the second is replaced by the braces of the first, and the rest of its name is left behind them.
pub replace_params_prefix :
    (pre : Bytes) (c : ℕ) (name middle : Bytes) (d : ℕ) (more post : Bytes)
    → Lacks b':' pre
    → AllInName (c ∷ (name ++ d ∷ more))
    → AllInName (c ∷ name)
    → Lacks b':' middle
    → Ends (middle ++ b':' ∷ [])
    → Ends post
    → Lacks b':' post
    → replace_params
        (pre ++ b':' ∷ c ∷ (name ++ (middle ++ b':' ∷ c ∷ ((name ++ d ∷ more) ++ post))))
      ≡ pre
        ++ b'{' ∷ c ∷ (name ++ b'}' ∷ (middle ++ b'{' ∷ c ∷ (name ++ b'}' ∷ (d ∷ more ++ post))))
unfolding replace_params
replace_params_prefix pre c name middle d more post no_colon longer names mid_none ends post_ends
      post_none =
    let second = b':' ∷ c ∷ ((name ++ d ∷ more) ++ post) in
    let path = pre ++ b':' ∷ c ∷ (name ++ (middle ++ second)) in
    let tail = d ∷ more ++ post in
    let more_none =
      Lacks-append b':' (d ∷ more) post
        (AllInName-Lacks (d ∷ more) (AllInName-tail name (d ∷ more) longer.1)) post_none in
    let after = middle ++ b'{' ∷ c ∷ (name ++ b'}' ∷ tail) in
    let after_none = Lacks-append b':' middle _ mid_none (in_braces c name tail names more_none) in
    let out = pre ++ b'{' ∷ c ∷ (name ++ b'}' ∷ after) in
    let matches : find_params outside path
        ≡ (b':' ∷ c ∷ name) ∷ (b':' ∷ c ∷ (name ++ d ∷ more)) ∷ [] =
      find_param pre c name (middle ++ second) no_colon names (Ends-at_colon middle _ ends)
      ∙ ap (λ l. (b':' ∷ c ∷ name) ∷ l)
          (find_param middle c (name ++ d ∷ more) post mid_none longer post_ends
            ∙ ap (λ l. (b':' ∷ c ∷ (name ++ d ∷ more)) ∷ l) (no_params post post_none)) in
    let rest : replace_all (b':' ∷ c ∷ name) (braced c name) (middle ++ second) ≡ after =
      replace_behind b':' (c ∷ name) (braced c name) middle second mid_none
      ∙ ap (λ l. middle ++ replace_all (b':' ∷ c ∷ name) (braced c name) (b':' ∷ c ∷ l))
          (append_assoc name (d ∷ more) post)
      ∙ ap (λ l. middle ++ l)
          (replace_head b':' (c ∷ name) (braced c name) tail
            ∙ ap (λ l. braced c name ++ l)
                (replace_lacking b':' [] (c ∷ name) (braced c name) tail more_none)
            ∙ ap (λ l. b'{' ∷ c ∷ l) (append_assoc name (b'}' ∷ []) tail)) in
    ap (λ l. each_param l path) matches
    ∙ ap (replace_param (b':' ∷ c ∷ (name ++ d ∷ more))) (
        first_round pre c name (middle ++ second) no_colon names
        ∙ ap (λ l. pre ++ b'{' ∷ c ∷ (name ++ b'}' ∷ l)) rest)
    ∙ param_round c (name ++ d ∷ more) out longer
    ∙ replace_lacking b':' [] (c ∷ (name ++ d ∷ more)) (braced c (name ++ d ∷ more)) out
        (Lacks-append b':' pre _ no_colon (in_braces c name after names after_none))
