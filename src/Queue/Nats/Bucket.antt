-- ===== src/Queue/Nats/Bucket.antt =====
-- A bucket that never fails: an instance of the interface of the processed log.
use windowframe.Prelude.{
  ◌≡◌, ◌≢◌, refl, String, String_comparable, ◌==◌, ==_iff, false, Option, none, some, inr, ◌⊎◌,
  Assoc, lookup, insert, erase, lookup-insert, lookup-erase, arith,
}
use windowframe.Errors.{Err}
use windowframe.Queue.Nats.Message.{KeyValueApi, CreateResult, created, key_exists, failed}

abbrev pub Bucket : Type 0
Bucket = Assoc String String

abbrev pub create : String → String → Bucket → Bucket × CreateResult
create k v s = elim (lookup k s) [ none ↦ (insert k v s, created) | some w ↦ (s, key_exists) ]

module _ (k v : String) (s : Bucket) where
  pub create-created :
      (create k v s).1 ≡ created → (lookup k s ≡ none) × (lookup k (create k v s).0 ≡ some v)
  create-created h = ground (arith, lookup-insert k k v s, ==_iff k k)

  pub create-key_exists :
      (create k v s).1 ≡ key_exists → (lookup k s ≢ none) × (lookup k (create k v s).0 ≡ lookup k s)
  create-key_exists h = ground arith

  pub create-failed :
      (create k v s).1 ≡ failed
      → (lookup k (create k v s).0 ≡ lookup k s)
        ⊎ (lookup k s ≡ none) × (lookup k (create k v s).0 ≡ some v)
  create-failed h = ground arith

  pub create_frame : (j : String) → (k == j) ≡ false → lookup j (create k v s).0 ≡ lookup j s
  create_frame j h = ground (arith, lookup-insert k j v s)

  pub put-ok : lookup k (insert k v s) ≡ some v
  put-ok = ground (arith, lookup-insert k k v s, ==_iff k k)

  pub put-failed :
      (e : Err)
      → ◌≡◌ {A = Option Err} none (some e)
      → (lookup k (insert k v s) ≡ lookup k s) ⊎ (lookup k (insert k v s) ≡ some v)
  put-failed e h = cc

  pub put_frame : (j : String) → (k == j) ≡ false → lookup j (insert k v s) ≡ lookup j s
  put_frame j h = ground (arith, lookup-insert k j v s)

pub delete-ok : (k : String) (s : Bucket) → lookup k (erase k s) ≡ none
delete-ok k s = ground (arith, lookup-erase k k s, ==_iff k k)

pub delete_frame :
    (k j : String) (s : Bucket) → (k == j) ≡ false → lookup j (erase k s) ≡ lookup j s
delete_frame k j s h = ground (arith, lookup-erase k j s)

abbrev pub bucket : KeyValueApi
bucket = record {
  Store = Bucket;
  create = create;
  get = λ k s. (s, lookup k s);
  put = λ k v s. (insert k v s, none);
  delete = λ k s. (erase k s, none);
  value = λ s k. lookup k s;
  create-created = create-created;
  create-key_exists = create-key_exists;
  create-failed = create-failed;
  create_frame = λ k j v s. create_frame k v s j;
  get_frame = λ k j s. refl;
  get-some = λ k v s h. h;
  put-ok = λ k v s h. put-ok k v s;
  put-failed = λ k v s e h. put-failed k v s e h;
  put_frame = λ k j v s. put_frame k v s j;
  delete_value = λ k s. inr (delete-ok k s);
  delete-ok = λ k s h. delete-ok k s;
  delete_frame = delete_frame;
}
