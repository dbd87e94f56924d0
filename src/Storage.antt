-- ===== src/Storage.antt =====
-- storage/storage.go: New chooses a bucket. The providers of thanos-io/objstore are parameters, by their result; a bucket is a
-- value of `B`. A configuration maps names to values of any type, told apart as far as New looks at them.
use windowframe.Prelude.{
  ℕ, ◌≡◌, Bool, true, false, ◌↔◌, refl, String, String_comparable, Option, none, some, Assoc,
  lookup,
}
use windowframe.Errors.{Err, wrap}

pub data Backend : Type 0 where
  s3 filesystem memory : Backend
  -- any other number
  unknown : ℕ → Backend

pub data ConfValue : Type 0 where
  text : String → ConfValue
  tracer : ConfValue
  other : ℕ → ConfValue

abbrev pub Conf : Type 0
Conf = Assoc String ConfValue

-- (objstore.Bucket, error) of a provider, and of New
pub data Provided (B : Type 0) : Type 0 where
  provided : B → Provided B
  failed : Err → Provided B

pub data Result (B : Type 0) : Type 0 where
  opened : B → Result B
  unsupported_storage_type : Result B
  invalid_root_dir : String → Result B
  provider_error : Err → Result B

module _ {B : Type 0} (new_s3 : Conf → Provided B) (new_filesystem : String → Provided B)
    (new_memory : B) (traced : B → B) where
  abbrev s3_bucket : Provided B → Result B
  s3_bucket (provided b) = opened b
  s3_bucket (failed e) = provider_error e

  abbrev root_bucket : Provided B → Result B
  root_bucket (provided b) = opened b
  root_bucket (failed e) = provider_error (wrap "open filesystem bucket" e)

  -- newFilesystem, from the value of dir
  abbrev filesystem_bucket : Option ConfValue → Result B
  filesystem_bucket none = invalid_root_dir "root dir not set"
  filesystem_bucket (some (text dir)) = root_bucket (new_filesystem dir)
  filesystem_bucket (some tracer) = invalid_root_dir "root dir not a string"
  filesystem_bucket (some (other x)) = invalid_root_dir "root dir not a string"

  abbrev backend_bucket : Backend → Conf → Result B
  backend_bucket s3 conf = s3_bucket (new_s3 conf)
  backend_bucket filesystem conf = filesystem_bucket (lookup "dir" conf)
  backend_bucket memory conf = opened new_memory
  backend_bucket (unknown n) conf = unsupported_storage_type

  abbrev trace_if : Option ConfValue → B → B
  trace_if (some tracer) b = traced b
  trace_if none b = b
  trace_if (some (text t)) b = b
  trace_if (some (other x)) b = b

  abbrev with_tracer : Option ConfValue → Result B → Result B
  with_tracer v (opened b) = opened (trace_if v b)
  with_tracer v unsupported_storage_type = unsupported_storage_type
  with_tracer v (invalid_root_dir m) = invalid_root_dir m
  with_tracer v (provider_error e) = provider_error e

  -- New, with newS3, newFilesystem and newMemory
  unfoldable new : Backend → Conf → Result B
  new backend conf = with_tracer (lookup "tracer" conf) (backend_bucket backend conf)

  abbrev is_text : Option ConfValue → Bool
  is_text none = false
  is_text (some (text dir)) = true
  is_text (some tracer) = false
  is_text (some (other x)) = false

  -- The root directory of a filesystem bucket is refused exactly if the configuration has no text for it, whatever else it
  -- holds and whatever the provider does.
  new_filesystem_lem :
      (conf : Conf)
      → ((m : String) × (new filesystem conf ≡ invalid_root_dir m))
        ↔ (is_text (lookup "dir" conf) ≡ false)
  unfolding new
  new_filesystem_lem conf = by_value (lookup "dir" conf)
    where
      by_provider :
          (r : Provided B) (m : String)
          → with_tracer (lookup "tracer" conf) (root_bucket r) ≡ invalid_root_dir m
          → true ≡ false
      by_provider (provided b) m e = cc
      by_provider (failed x) m e = cc

      by_value :
          (v : Option ConfValue)
          → ((m : String) × (with_tracer (lookup "tracer" conf) (filesystem_bucket v)
                ≡ invalid_root_dir m))
            ↔ (is_text v ≡ false)
      by_value none = (λ h. refl, λ h. (_, refl))
      by_value (some (text dir)) = (λ (m, e). by_provider (new_filesystem dir) m e, λ h. cc)
      by_value (some tracer) = (λ h. refl, λ h. (_, refl))
      by_value (some (other x)) = (λ h. refl, λ h. (_, refl))
