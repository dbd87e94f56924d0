-- ===== src/Cache/Expiring/Model.antt =====
-- What ExpiringCache promises: a table of deadlines that forgets nothing, read through the clock.
use windowframe.Prelude.{
  ℕ, ℤ, ◌≤◌, ◌≡◌, refl, sym, ap, ◌∙◌, Bool, true, false, Option, none, some, List, [], ◌∷◌,
  Comparable, ◌==◌, ==_iff, arith, lookup, lookup-insert, lookup-erase, IsDistinct,
  insert-IsDistinct, erase-IsDistinct, if◌then◌else◌, add_time,
}
use windowframe.Cache.Expiring.{
  ExpiringItem, ExpiringCache, is_expired, answer, new_expiring_cache, get, put, delete,
}

-- The calls that change or read the cache, each at the instant of its clock reading.
pub data Call {ℓ} (K U : Type ℓ) : Type ℓ where
  get_call : K → Call K U
  put_call : K → U → ℤ → Call K U
  delete_call : K → Call K U

-- The specification's table: the last put of each key that was not deleted, expired or not.
abbrev pub Table {ℓ} : Type ℓ → Type ℓ → Type ℓ
Table K U = K → Option (ExpiringItem U)

module _ {ℓ} {K U : Type ℓ} ⦃e : Comparable K⦄ (zero_value : U) where
  unfoldable pub apply : ℕ → Call K U → ExpiringCache K U → ExpiringCache K U × (U × Bool)
  unfolding get put delete
  apply now (get_call k) c = get zero_value now k c
  apply now (put_call k v d) c = (put now k v d c, (zero_value, false))
  apply now (delete_call k) c = (delete k c, (zero_value, false))

  -- The results of a sequence of calls, each with its clock reading.
  unfoldable pub run : List (ℕ × Call K U) → ExpiringCache K U → List (U × Bool)
  unfolding apply
  run [] c = []
  run ((now, call) ∷ rest) c = let (c', r) = apply now call c in r ∷ run rest c'

  unfoldable pub spec_apply : ℕ → Call K U → Table K U → Table K U × (U × Bool)
  unfolding answer
  spec_apply now (get_call k) t = (t, (answer zero_value now (t k)).0)
  spec_apply now (put_call k v d) t = (
    λ j. if k == j then some (record { item = v; expires = add_time now d }) else t j,
    (zero_value, false),
  )
  spec_apply now (delete_call k) t = (λ j. if k == j then none else t j, (zero_value, false))

  unfoldable pub spec_run : List (ℕ × Call K U) → Table K U → List (U × Bool)
  unfolding spec_apply
  spec_run [] t = []
  spec_run ((now, call) ∷ rest) t = let (t', r) = spec_apply now call t in r ∷ spec_run rest t'

-- The clock never runs backwards from `now` on.
abbrev pub IsMonotone {ℓ} : {A : Type ℓ} → ℕ → List (ℕ × A) → Type 0
IsMonotone now [] = Unit
IsMonotone now ((t, a) ∷ rest) = (now ≤ t) × IsMonotone t rest

-- What a read at `now` or later can see of an entry.
abbrev live {ℓ} : {U : Type ℓ} → ℕ → Option (ExpiringItem U) → Option (ExpiringItem U)
live now none = none
live now (some i) = if is_expired i now then none else some i

module _ {ℓ} {U : Type ℓ} where
  live_later : (now t : ℕ) (o : Option (ExpiringItem U)) → now ≤ t → live t (live now o) ≡ live t o
  live_later now t none h = refl
  live_later now t (some i) h = ground arith

  live_agree :
      (now t : ℕ) (o p : Option (ExpiringItem U))
      → now ≤ t
      → live now o ≡ live now p
      → live t o ≡ live t p
  live_agree now t o p h a = sym (live_later now t o h) ∙ ap (live t) a ∙ live_later now t p h

  answer-live :
      (z : U) (now : ℕ) (o : Option (ExpiringItem U))
      → (answer z now (live now o)).0 ≡ (answer z now o).0
  unfolding answer
  answer-live z now none = refl
  answer-live z now (some i) = ground arith

  answer_agree :
      (z : U) (now : ℕ) (o p : Option (ExpiringItem U))
      → live now o ≡ live now p
      → (answer z now o).0 ≡ (answer z now p).0
  answer_agree z now o p a =
      sym (answer-live z now o) ∙ ap (λ q. (answer z now q).0) a ∙ answer-live z now p

  live_expired : (now : ℕ) (i : ExpiringItem U) → is_expired i now ≡ true → live now (some i) ≡ none
  live_expired now i h = ground arith

module _ {ℓ} {K U : Type ℓ} ⦃e : Comparable K⦄ where
  -- The cache and the table agree on what is not expired at `now`.
  abbrev Agrees : ℕ → ExpiringCache K U → Table K U → Type ℓ
  Agrees now c t = (k : K) → live now (lookup k c.items) ≡ live now (t k)

  -- Get drops nothing that a later read could see.
  live-get :
      (z : U) (now : ℕ) (k : K) (c : ExpiringCache K U) (j : K)
      → live now (lookup j (get z now k c).0.items) ≡ live now (lookup j c.items)
  unfolding get
  live-get z now k c j = ground (arith, ==_iff k j, lookup-erase k j c.items)

  apply-Agrees :
      (z : U) (now : ℕ) (call : Call K U) (c : ExpiringCache K U) (t : Table K U)
      → Agrees now c t
      → Agrees now (apply z now call c).0 (spec_apply z now call t).0
  unfolding apply spec_apply
  apply-Agrees z now (get_call k) c t a j = live-get z now k c j ∙ a j
  apply-Agrees z now (put_call k v d) c t a j =
      unfold put in
      ground (arith, lookup-insert k j (record { item = v; expires = add_time now d }) c.items, a j)
  apply-Agrees z now (delete_call k) c t a j =
      unfold delete in ground (arith, lookup-erase k j c.items, a j)

  apply-answer :
      (z : U) (now : ℕ) (call : Call K U) (c : ExpiringCache K U) (t : Table K U)
      → Agrees now c t
      → (apply z now call c).1 ≡ (spec_apply z now call t).1
  unfolding apply spec_apply get
  apply-answer z now (get_call k) c t a = answer_agree z now (lookup k c.items) (t k) (a k)
  apply-answer z now (put_call k v d) c t a = refl
  apply-answer z now (delete_call k) c t a = refl

  run_agree :
      (z : U) (now : ℕ) (calls : List (ℕ × Call K U)) (c : ExpiringCache K U) (t : Table K U)
      → IsMonotone now calls
      → Agrees now c t
      → run z calls c ≡ spec_run z calls t
  unfolding run spec_run
  run_agree z now [] c t m a = refl
  run_agree z now ((at, call) ∷ rest) c t m a =
      let a' : Agrees at c t = λ k. live_agree now at (lookup k c.items) (t k) m.0 (a k) in
      cc (
        apply-answer z at call c t a',
        run_agree z at rest (apply z at call c).0 (spec_apply z at call t).0 m.1
            (apply-Agrees z at call c t a'),
      )

  -- Over any sequence of calls whose clock readings never decrease, a new ExpiringCache returns
  -- exactly what the specification's table returns: the last put that was not deleted, while its
  -- deadline has not passed. So dropping expired entries lazily is never seen by a client.
  pub run-spec_run :
      (z : U) (calls : List (ℕ × Call K U))
      → IsMonotone 0 calls
      → run z calls new_expiring_cache ≡ spec_run z calls (λ k. none)
  unfolding new_expiring_cache
  run-spec_run z calls m =
      run_agree z 0 calls new_expiring_cache (λ k. none) m (λ k. unfold lookup in refl)

  -- The calls keep the keys of the map distinct, so that Len counts each key once.
  pub apply-IsDistinct :
      (z : U) (now : ℕ) (call : Call K U) (c : ExpiringCache K U)
      → IsDistinct c.items
      → IsDistinct (apply z now call c).0.items
  unfolding apply
  apply-IsDistinct z now (get_call k) c h =
      unfold get in ground (arith, erase-IsDistinct k c.items h)
  apply-IsDistinct z now (put_call k v d) c h =
      unfold put in insert-IsDistinct k (record { item = v; expires = add_time now d }) c.items h
  apply-IsDistinct z now (delete_call k) c h = unfold delete in erase-IsDistinct k c.items h
