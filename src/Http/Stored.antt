-- ===== src/Http/Stored.antt =====
-- http/common/common.go: the request and the auth method that a context carries. ctxgen's WithValue and ValueOk, at the type of
-- the value, are parameters.
use windowframe.Prelude.{◌≡◌, ap, Option, none, some, String}

module _ {Ctx T : Type 0} (with_value : String → T → Ctx → Ctx)
    (value_ok : String → Ctx → Option T) where
  -- SetRequest
  unfoldable set_request : Ctx → T → Ctx
  set_request ctx req = with_value "request" req ctx

  -- GetRequest; `none` is a false ok.
  unfoldable get_request : Ctx → Option T
  get_request ctx = value_ok "request" ctx

abbrev AuthMethod : Type 0
AuthMethod = String

abbrev or_unknown : Option AuthMethod → AuthMethod
or_unknown none = "unknown"
or_unknown (some method) = method

module _ {Ctx : Type 0} (with_value : String → AuthMethod → Ctx → Ctx)
    (value_ok : String → Ctx → Option AuthMethod) where
  -- SetAuthMethod
  unfoldable set_auth_method : Ctx → AuthMethod → Ctx
  set_auth_method ctx method = with_value "auth_method" method ctx

  -- GetAuthMethod
  unfoldable get_auth_method : Ctx → AuthMethod
  get_auth_method ctx = or_unknown (value_ok "auth_method" ctx)

  -- The method that was set last is read, whatever a context carried before, if ValueOk finds what WithValue set.
  get_auth_method-set_auth_method :
      (ctx : Ctx) (first last : AuthMethod)
      → ((k : String) (v : AuthMethod) (c : Ctx) → value_ok k (with_value k v c) ≡ some v)
      → get_auth_method (set_auth_method (set_auth_method ctx first) last) ≡ last
  unfolding get_auth_method set_auth_method
  get_auth_method-set_auth_method ctx first last found =
      ap or_unknown (found "auth_method" last (with_value "auth_method" first ctx))
