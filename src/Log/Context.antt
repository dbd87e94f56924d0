-- ===== src/Log/Context.antt =====
-- Contexts with values, as log/handler.go and http/common use them: the keys and values of the program, and the
-- interface of henrywhitaker3/ctxgen.
use windowframe.Prelude.{
  ℕ, ◌≡◌, Bool, true, false, Option, some, String, String_comparable, ◌==◌, if◌then◌else◌,
}

-- A key: a string, or the contextKey of log/handler.go
pub data CtxKey : Type 0 where
  text_key : String → CtxKey
  log_attrs : CtxKey

pub data CtxValue : Type 0 where
  text_value : String → CtxValue
  -- a map of attributes, by its address
  attrs_at : ℕ → CtxValue
  other_value : ℕ → CtxValue

abbrev pub same_key : CtxKey → CtxKey → Bool
same_key (text_key j) (text_key k) = j == k
same_key (text_key j) log_attrs = false
same_key log_attrs (text_key k) = false
same_key log_attrs log_attrs = true

-- WithValue and ValueOk before its test of the type
pub record CtxApi {ℓ} (Ctx : Type ℓ) : Type ℓ where
  pub with_value : CtxKey → CtxValue → Ctx → Ctx
  pub value : CtxKey → Ctx → Option CtxValue

-- A value is found under its key; the others are those of the parent.
pub record IsCtx {ℓ} {Ctx : Type ℓ} (api : CtxApi Ctx) : Type ℓ where
  pub value-with_value :
      (j k : CtxKey) (v : CtxValue) (ctx : Ctx)
      → api.value j (api.with_value k v ctx) ≡ (if same_key k j then some v else api.value j ctx)
