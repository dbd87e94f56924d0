-- ===== src/Config/Flags/Fills.antt =====
-- Which fields config/flags.go fills, and with what.
use windowframe.Prelude.{
  String, String_comparable, ◌≡◌, refl, ap, sym, ◌∙◌, Bool-cases, inl, inr, ◌↔◌, Bool, true, false,
  Option, none, some, if◌then◌else◌,
}
use windowframe.Errors.{foreign}
use windowframe.Config.Flags.{
  Getter, Got, got, got_error, FlagSet, Field, Fields, no_fields, field, Outcome, extracted, failed,
  panicked, getter_of, converts, is_struct, got_or, value_by, skipped, get_field_value,
  inner_fields, own_value, set_field, then_own, then_rest, process_item, extract,
}

module _ {V : Type 0} (flags : FlagSet V) where
  -- The value of one field before and after.
  pub data Fills (f : Field) (v : V) : V → Type 0 where
    stays : skipped flags f.tag ≡ true → Fills f v v
    filled :
        {w : V}
        → skipped flags f.tag ≡ false
        → converts f.kind ≡ true
        → (text : String) (g : Getter) → getter_of f.kind ≡ some (text, g)
        → flags.get g f.tag ≡ got w
        → Fills f v w

  -- A configuration before and after: every field without a tag has its value, every other has the value
  -- of its flag, and so in the structs inside.
  pub data AllFilled : Fields V → Fields V → Type 0 where
    none_left : AllFilled no_fields no_fields
    next :
        {f : Field} {v w : V} {inner inner1 rest rest1 : Fields V}
        → is_struct f.kind ≡ true
        → AllFilled inner inner1
        → Fills f v w
        → AllFilled rest rest1
        → AllFilled (field f v inner rest) (field f w inner1 rest1)
    next_leaf :
        {f : Field} {v w : V} {inner rest rest1 : Fields V}
        → is_struct f.kind ≡ false
        → Fills f v w
        → AllFilled rest rest1
        → AllFilled (field f v inner rest) (field f w inner rest1)

  own_filled : (f : Field) (v w : V) → Fills f v w → own_value flags f v ≡ (w, extracted)
  unfolding get_field_value
  own_filled f v _ (stays skip) = rw skip refl
  own_filled f v w (filled use_tag conv text g kind value) = rw (use_tag, kind, value, conv) refl

  process_filled : (a b : Fields V) → AllFilled a b → process_item flags a ≡ (b, extracted)
  unfolding process_item
  process_filled _ _ none_left = refl
  process_filled _ _ (next s i f r) =
      rw (s, process_filled _ _ i, own_filled _ _ _ f, process_filled _ _ r) refl
  process_filled _ _ (next_leaf s f r) = rw (s, own_filled _ _ _ f, process_filled _ _ r) refl

  set_inv :
      (b : Bool) (y v w : V)
      → ◌≡◌ {A = V × Outcome} (if b then (y, extracted) else (v, panicked)) (w, extracted)
      → (b ≡ true) × (y ≡ w)
  set_inv true y v w h = (refl, ap (λ x. x.0) h)
  set_inv false y v w h = cc

  set_fills :
      (f : Field) (v w : V) (k : Option (String × Getter))
      → getter_of f.kind ≡ k
      → skipped flags f.tag ≡ false
      → set_field flags f v (value_by flags f.tag k) ≡ (w, extracted)
      → Fills f v w
  set_fills f v w none e used done = cc
  set_fills f v w (some (text, g)) e used done = by_value (flags.get g f.tag) refl done
    where
      by_value :
          (x : Got V)
          → flags.get g f.tag ≡ x
          → set_field flags f v (got_or flags text x) ≡ (w, extracted)
          → Fills f v w
      by_value (got_error err) q h = cc
      by_value (got y) q h =
          let (conv, same) = set_inv (converts f.kind) y v w h in
          rw (← same) (filled used conv text g e q)

  own_skipped :
      (f : Field) (v : V) → skipped flags f.tag ≡ true → (v, extracted) ≡ own_value flags f v
  own_skipped f v skip = rw skip refl

  own_used :
      (f : Field) (v : V)
      → skipped flags f.tag ≡ false
      → set_field flags f v (get_field_value flags f) ≡ own_value flags f v
  own_used f v used = rw used refl

  own_fills : (f : Field) (v w : V) → own_value flags f v ≡ (w, extracted) → Fills f v w
  unfolding get_field_value
  own_fills f v w h = elim (Bool-cases (skipped flags f.tag)) [
    | inl skip ↦
        let same : v ≡ w = ap (λ x. x.0) (own_skipped f v skip ∙ h) in rw (← same) (stays skip)
    | inr used ↦ set_fills f v w (getter_of f.kind) refl used (own_used f v used ∙ h)
  ]

  then_inv :
      (f : Field) (v : V) (i : Fields V × Outcome) (rest : Fields V) (r : Fields V × Outcome)
      (b : Fields V)
      → then_own flags f v i rest r ≡ (b, extracted)
      → (i.1 ≡ extracted)
        × ((own_value flags f v).1 ≡ extracted)
        × (r.1 ≡ extracted)
        × (field f (own_value flags f v).0 i.0 r.0 ≡ b)
  then_inv f v (inner, failed e) rest r b h = cc
  then_inv f v (inner, panicked) rest r b h = cc
  then_inv f v (inner, extracted) rest r b h = by_own (own_value flags f v) r h
    where
      by_own :
          (o : V × Outcome) (r : Fields V × Outcome)
          → then_rest flags f inner o rest r ≡ (b, extracted)
          → (extracted ≡ extracted)
            × (o.1 ≡ extracted)
            × (r.1 ≡ extracted)
            × (field f o.0 inner r.0 ≡ b)
      by_own (w, failed e) r h = cc
      by_own (w, panicked) r h = cc
      by_own (w, extracted) (rest1, o) h = (refl, refl, ap (λ x. x.1) h, ap (λ x. x.0) h)

  process_fills : (a b : Fields V) → process_item flags a ≡ (b, extracted) → AllFilled a b
  unfolding process_item
  process_fills no_fields b h = let same : no_fields ≡ b = ap (λ x. x.0) h in rw (← same) none_left
  process_fills (field f v inner rest) b h =
      let (i, o, r, same) =
        then_inv f v (inner_fields flags (is_struct f.kind) (process_item flags inner) inner) rest
          (process_item flags rest) b h in
      let own = own_fills f v (own_value flags f v).0 (λ k. ((own_value flags f v).0, o k)) in
      let behind =
        process_fills rest (process_item flags rest).0 (λ k. ((process_item flags rest).0, r k)) in
      elim (Bool-cases (is_struct f.kind)) [
        | inl s ↦
            rw (← same, s)
              (next s
                (process_fills inner (process_item flags inner).0 (λ k. (
                  (process_item flags inner).0,
                  (ap (λ q. (inner_fields flags q (process_item flags inner) inner).1) (sym s) ∙ i)
                      k,
                )))
                own behind)
        | inr s ↦ rw (← same, s) (next_leaf s own behind)
      ]

  extract_parsed : (a : Fields V) → flags.parsed ≡ true → extract flags a ≡ process_item flags a
  unfolding extract
  extract_parsed a parsed = rw parsed refl

  extract_early :
      (a : Fields V)
      → flags.parsed ≡ false
      → extract flags a ≡ (a, failed (foreign "pflags not parsed yet"))
  extract_early a early = unfold extract in rw early refl

  -- Extract returns no error exactly if the flags were parsed and every field with a tag, at any depth, can
  -- be filled; then every such field has the value of its flag, and every other field is as it was. A
  -- tag that is empty or a dash counts as none. A field fails to be filled if its kind has no method of
  -- pflag, if pflag has an error for it, or if the value does not convert.
  pub extract-AllFilled :
      (a b : Fields V)
      → (extract flags a ≡ (b, extracted)) ↔ ((flags.parsed ≡ true) × AllFilled a b)
  extract-AllFilled a b = elim (Bool-cases flags.parsed) [
    | inl parsed ↦ (
      λ h. (parsed, process_fills a b (sym (extract_parsed a parsed) ∙ h)),
      λ (p, h). extract_parsed a parsed ∙ process_filled a b h,
    )
    | inr early ↦ (λ h. let clash = sym (extract_early a early) ∙ h in cc, λ (p, h). cc)
  ]
