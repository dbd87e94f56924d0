-- ===== src/Log/Attrs.antt =====
-- log/handler.go: what a record carries, and that a map in use is never changed.
use windowframe.Prelude.{
  ℕ, inl, inr, Bool-cases, zero, suc, ◌<◌, ◌≡◌, refl, ap, sym, ◌∙◌, Option, none, some, List, [],
  ◌∷◌, ◌++◌, map, length, length-append, String, String_comparable, ◌==◌, ==_iff, Assoc, insert,
  lookup, lookup-insert, if◌then◌else◌, arith,
}
use mathlib.Core.List.{Memᴰ}
use mathlib.Core.Option.{none-ne-some}
use windowframe.Log.Context.{log_attrs, CtxValue, text_value, attrs_at, other_value, CtxApi, IsCtx}
use windowframe.Log.{
  AnyValue, as_attrs, store_log_attrs, Store, map_at, copy, slog_value, Attr, get_log_attrs,
  with_log_attr, handle,
}

lookup-copy : (j : String) (m : Assoc String AnyValue) → lookup j (copy m []) ≡ lookup j m
unfolding copy lookup
lookup-copy j [] = refl
lookup-copy j ((k, v) ∷ m) = ground (arith, lookup-insert k j v (copy m []), lookup-copy j m)

map_at_old :
    (a : ℕ) (s : Store) (m : Assoc String AnyValue)
    → a < length s
    → map_at a (s ++ m ∷ []) ≡ map_at a s
unfolding map_at
map_at_old a [] m h = absurd (omega arith)
map_at_old zero (x ∷ s) m h = refl
map_at_old (suc a) (x ∷ s) m h = map_at_old a s m (omega arith)

map_at_new : (s : Store) (m : Assoc String AnyValue) → map_at (length s) (s ++ m ∷ []) ≡ m
unfolding map_at
map_at_new [] m = refl
map_at_new (x ∷ s) m = map_at_new s m

new_address : (s : Store) (m : Assoc String AnyValue) → length s < length (s ++ m ∷ [])
new_address s m = omega (arith, length-append s (m ∷ []))

lookup-Mem :
    (k : String) (v : AnyValue) (m : Assoc String AnyValue) → lookup k m ≡ some v → Memᴰ (k, v) m
unfolding lookup
lookup-Mem k v [] h = absurd (none-ne-some v h)
lookup-Mem k v ((i, w) ∷ m) h = elim (Bool-cases (i == k)) [
  | inl same ↦ Memᴰ.head (let e : i ≡ k = (==_iff i k).0 same in cc)
  | inr other ↦ Memᴰ.tail (lookup-Mem k v m (sym (rw (lookup, other) refl) ∙ h))
]

-- Memᴰ passes through the conversion of attributes, and through a list in front.
mem-map : {A B : Type 0} (f : A → B) (x : A) (xs : List A) → Memᴰ x xs → Memᴰ (f x) (map f xs)
mem-map f x [] d = elim d [ ]
mem-map f x (y ∷ ys) (Memᴰ.head e) = Memᴰ.head (ap f e)
mem-map f x (y ∷ ys) (Memᴰ.tail d) = Memᴰ.tail (mem-map f x ys d)

mem-append : {A : Type 0} (x : A) (front xs : List A) → Memᴰ x xs → Memᴰ x (front ++ xs)
mem-append x [] xs d = d
mem-append x (y ∷ ys) xs d = Memᴰ.tail (mem-append x ys xs d)

-- The map of a context is in the store.
abbrev pub IsStored : Store → Option CtxValue → Type 0
IsStored s none = Unit
IsStored s (some (text_value t)) = Unit
IsStored s (some (attrs_at a)) = a < length s
IsStored s (some (other_value x)) = Unit

module _ {Ctx : Type 0} (api : CtxApi Ctx) (laws : IsCtx api) where
  get_old :
      (s : Store) (m : Assoc String AnyValue) (v : Option CtxValue)
      → IsStored s v
      → (as_attrs api (s ++ m ∷ []) v ≡ as_attrs api s v) × IsStored (s ++ m ∷ []) v
  get_old s m none h = (refl, tt)
  get_old s m (some (text_value t)) h = (refl, tt)
  get_old s m (some (attrs_at a)) h =
      (map_at_old a s m h, omega (arith, h, length-append s (m ∷ [])))
  get_old s m (some (other_value x)) h = (refl, tt)

  abbrev updated : String → AnyValue → Store → Ctx → Assoc String AnyValue
  updated key val s ctx = insert key val (copy (get_log_attrs api s ctx) [])

  new_value :
      (key : String) (val : AnyValue) (s : Store) (ctx : Ctx)
      → api.value log_attrs (with_log_attr api key val s ctx).1 ≡ some (attrs_at (length s))
  unfolding with_log_attr store_log_attrs
  new_value key val s ctx = laws.value-with_value log_attrs log_attrs (attrs_at (length s)) ctx

  get_new :
      (key : String) (val : AnyValue) (s : Store) (ctx : Ctx)
      → get_log_attrs api (with_log_attr api key val s ctx).0 (with_log_attr api key val s ctx).1
        ≡ insert key val (copy (get_log_attrs api s ctx) [])
  unfolding get_log_attrs with_log_attr store_log_attrs
  get_new key val s ctx =
      ap (as_attrs api (s ++ updated key val s ctx ∷ [])) (new_value key val s ctx)
      ∙ map_at_new s (updated key val s ctx)

  has_attr :
      (key : String) (val : AnyValue) (s : Store) (ctx : Ctx)
      → Memᴰ
          (key, val)
          (get_log_attrs api
            (with_log_attr api key val s ctx).0
            (with_log_attr api key val s ctx).1)
  has_attr key val s ctx =
      lookup-Mem key val _ (rw (get_new key val s ctx, lookup-insert, (==_iff key key).1 refl) refl)

  handle-Mem :
      (widen : ℕ → ℕ) (walk : Assoc String AnyValue → Assoc String AnyValue) (s : Store) (c : Ctx)
      (r : List Attr) (x : String × AnyValue)
      → Memᴰ x (walk (get_log_attrs api s c))
      → Memᴰ (x.0, slog_value widen x.1) (handle api widen walk s c r)
  unfolding handle
  handle-Mem widen walk s c r x d =
      mem-append _ _ _ (mem-map (λ p. (p.0, slog_value widen p.1)) x _ d)

  -- A record that is logged under the context of WithLogAttr carries the attribute; its map has the parent's other
  -- attributes. Any context that was there before, the parent too, logs every record as before, although
  -- contexts share maps; and the maps of both contexts are in the store, so this goes on. Range is
  -- taken to visit each entry of a map.
  pub handle-with_log_attr :
      (widen : ℕ → ℕ) (walk : Assoc String AnyValue → Assoc String AnyValue) (key j : String)
      (val : AnyValue) (s : Store) (ctx old : Ctx) (record_attrs : List Attr)
      → ((m : Assoc String AnyValue) (x : String × AnyValue) → Memᴰ x m → Memᴰ x (walk m))
      → IsStored s (api.value log_attrs old)
      → (let (s1, child) = with_log_attr api key val s ctx in
          Memᴰ (key, slog_value widen val) (handle api widen walk s1 child record_attrs)
          × (lookup j (get_log_attrs api s1 child)
              ≡ (if key == j then some val else lookup j (get_log_attrs api s ctx)))
          × (handle api widen walk s1 old record_attrs ≡ handle api widen walk s old record_attrs)
          × IsStored s1 (api.value log_attrs child)
          × IsStored s1 (api.value log_attrs old))
  unfolding handle get_log_attrs with_log_attr
  handle-with_log_attr widen walk key j val s ctx old record_attrs visits stored =
      let (same, kept) = get_old s _ (api.value log_attrs old) stored in
      (
        handle-Mem widen walk _ _ record_attrs (key, val) (visits _ _ (has_attr key val s ctx)),
        rw (get_new key val s ctx, lookup-insert, lookup-copy) refl,
        rw same refl,
        rw (new_value key val s ctx) (new_address s (updated key val s ctx)),
        kept,
      )
