-- ===== src/Http/Schema/Security.antt =====
-- http/http.go: who may call a handler, by its description in the OpenAPI document and by its metadata.
use windowframe.Prelude.{
  ℕ, suc, ◌≡◌, refl, ap, sym, ◌∙◌, Bool, true, false, not, ◌&&◌, ◌||◌, Option, none, some, List, [],
  ◌∷◌, ◌++◌, length, any, String, String_comparable, ℕ_comparable, ◌==◌, if◌then◌else◌, arith,
}
use mathlib.Core.List.{append-nil}
use windowframe.Http.Schema.{
  Auth, Metadata, AuthConfig, new_schemes, SpecCall, add_req_structure, add_resp_structure, set_id,
  set_tags, set_summary, set_description, add_security, add_no_security, id_calls,
  description_calls, auth_calls, security_calls, schema_calls,
}

-- The security requirements of a description, each by whether a client meets it that has these schemes
unfoldable pub requirements : (String → Bool) → List SpecCall → List Bool
requirements has [] = []
requirements has (add_security name scopes ∷ calls) = has name ∷ requirements has calls
requirements has (add_no_security ∷ calls) = true ∷ requirements has calls
requirements has (add_req_structure ∷ calls) = requirements has calls
requirements has (add_resp_structure r code ∷ calls) = requirements has calls
requirements has (set_id s ∷ calls) = requirements has calls
requirements has (set_tags s ∷ calls) = requirements has calls
requirements has (set_summary s ∷ calls) = requirements has calls
requirements has (set_description s ∷ calls) = requirements has calls

-- OpenAPI: one of the requirements is to be met, if there are any.
abbrev pub one_met : List Bool → Bool
one_met [] = true
one_met (r ∷ rs) = any (λ b. b) (r ∷ rs)

-- By the metadata: the handler asks for no scheme, or it is optional to have one, or the client has one of them.
abbrev pub may_call : (String → Bool) → Metadata → Bool
may_call has meta =
    not (any (λ a. a.enabled) meta.auths)
    || meta.auth_optional
    || any (λ a. a.enabled && has a.name) meta.auths

requirements-append :
    (has : String → Bool) (xs ys : List SpecCall)
    → requirements has (xs ++ ys) ≡ requirements has xs ++ requirements has ys
unfolding requirements
requirements-append has [] ys = refl
requirements-append has (add_security name scopes ∷ xs) ys =
    ap (λ l. has name ∷ l) (requirements-append has xs ys)
requirements-append has (add_no_security ∷ xs) ys =
    ap (λ l. true ∷ l) (requirements-append has xs ys)
requirements-append has (add_req_structure ∷ xs) ys = requirements-append has xs ys
requirements-append has (add_resp_structure r code ∷ xs) ys = requirements-append has xs ys
requirements-append has (set_id s ∷ xs) ys = requirements-append has xs ys
requirements-append has (set_tags s ∷ xs) ys = requirements-append has xs ys
requirements-append has (set_summary s ∷ xs) ys = requirements-append has xs ys
requirements-append has (set_description s ∷ xs) ys = requirements-append has xs ys

requirements-id_calls :
    (has : String → Bool) (id : Option String) (rest : List SpecCall)
    → requirements has (id_calls id ++ rest) ≡ requirements has rest
unfolding requirements
requirements-id_calls has none rest = refl
requirements-id_calls has (some id) rest = refl

requirements-description_calls :
    (has : String → Bool) (d : String) (rest : List SpecCall)
    → requirements has (description_calls d ++ rest) ≡ requirements has rest
unfolding requirements
requirements-description_calls has d rest = by_case (not (d == ""))
  where
    by_case :
        (b : Bool)
        → requirements has ((if b then set_description d ∷ [] else []) ++ rest)
          ≡ requirements has rest
    by_case true = refl
    by_case false = refl

requirements-schema_calls :
    (has : String → Bool) (auth_enabled : Bool) (meta : Metadata)
    → requirements has (schema_calls auth_enabled meta)
      ≡ requirements has (security_calls auth_enabled meta)
unfolding schema_calls requirements
requirements-schema_calls has auth_enabled meta =
    requirements-id_calls has meta.id _ ∙ requirements-description_calls has meta.description _

-- The loop over the auths, without the empty requirement
auth_calls-one_met :
    (has : String → Bool) (auths : List Auth)
    → (any (λ b. b) (requirements has (auth_calls auths))
        ≡ any (λ a. a.enabled && has a.name) auths)
      × (one_met (requirements has (auth_calls auths))
          ≡ (not (any (λ a. a.enabled) auths) || any (λ a. a.enabled && has a.name) auths))
unfolding requirements auth_calls
auth_calls-one_met has [] = (refl, refl)
auth_calls-one_met has (a ∷ auths) = by_case a.enabled (auth_calls-one_met has auths)
  where
    wanted : Bool
    wanted = any (λ a. a.enabled && has a.name) auths

    by_case :
        (e : Bool)
        → (any (λ b. b) (requirements has (auth_calls auths)) ≡ wanted)
          × (one_met (requirements has (auth_calls auths))
              ≡ (not (any (λ a. a.enabled) auths) || wanted))
        → (any
              (λ b. b)
              (requirements has
                (if e then add_security a.name a.scopes ∷ auth_calls auths else auth_calls auths))
            ≡ ((e && has a.name) || wanted))
          × (one_met (
                requirements has
                  (if e then add_security a.name a.scopes ∷ auth_calls auths else auth_calls auths))
              ≡ (not (e || any (λ a. a.enabled) auths) || ((e && has a.name) || wanted)))
    by_case true (same, met) = (ap (λ b. has a.name || b) same, ap (λ b. has a.name || b) same)
    by_case false h = h

any_last : (rs : List Bool) → any (λ b. b) (rs ++ true ∷ []) ≡ true
any_last [] = refl
any_last (true ∷ rs) = refl
any_last (false ∷ rs) = any_last rs

one_met_last : (rs : List Bool) → one_met (rs ++ true ∷ []) ≡ true
one_met_last [] = refl
one_met_last (r ∷ rs) = any_last (r ∷ rs)

middle_true : (p q : Bool) → (p || true || q) ≡ true
middle_true true q = refl
middle_true false q = refl

middle_false : (p q : Bool) → (p || false || q) ≡ (p || q)
middle_false true q = refl
middle_false false q = refl

no_requirement : (has : String → Bool) → requirements has (add_no_security ∷ []) ≡ true ∷ []
unfolding requirements
no_requirement has = refl

some_config : (n : ℕ) → (suc n == 0) ≡ false
some_config n = ground arith

security_met :
    (has : String → Bool) (auths : List Auth) (optional : Bool)
    → one_met
        (requirements has (auth_calls auths ++ (if optional then add_no_security ∷ [] else [])))
      ≡ (not (any (λ a. a.enabled) auths) || optional || any (λ a. a.enabled && has a.name) auths)
security_met has auths true =
    rw (requirements-append has (auth_calls auths) (add_no_security ∷ []), no_requirement has)
      (one_met_last (requirements has (auth_calls auths)) ∙ sym (middle_true _ _))
security_met has auths false =
    ap (λ calls. one_met (requirements has calls)) (append-nil (auth_calls auths))
    ∙ (auth_calls-one_met has auths).1
    ∙ sym
        (middle_false (not (any (λ a. a.enabled) auths)) (any (λ a. a.enabled && has a.name) auths))

-- A client may call a handler by its description exactly if it may by the handler's metadata: the description asks for
-- one of the enabled schemes, in none of its parts for a disabled one, and for nothing if having one is optional.
-- Without a configured scheme every client may. A scheme counts as configured although it is disabled.
pub one_met-schema_calls :
    (has : String → Bool) (configs : List AuthConfig) (meta : Metadata)
    → one_met (requirements has (schema_calls (new_schemes configs).auth_enabled meta))
      ≡ ((length configs == 0) || may_call has meta)
unfolding new_schemes security_calls
one_met-schema_calls has [] meta =
    ap one_met (requirements-schema_calls has false meta) ∙ unfold requirements in refl
one_met-schema_calls has (c ∷ configs) meta = rw (some_config (length configs)) (
    ap one_met (requirements-schema_calls has true meta)
    ∙ security_met has meta.auths meta.auth_optional)
