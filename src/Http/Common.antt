-- ===== src/Http/Common.antt =====
-- http/common/common.go: values in a request's context, tokens and cookies. A text that is searched is a list of bytes. The host
-- name that url.Parse finds in a domain, the cookies of a request and the time are arguments.
use windowframe.Prelude.{
  ℕ, ◌+◌, ◌*◌, ◌^◌, ◌≡◌, refl, Bool, true, false, Option, none, some, List, [], ◌∷◌, ◌++◌, length,
  String, String_comparable, ◌==◌,
}
use windowframe.Errors.{Err, wrap}
use windowframe.Text.{Bytes, codes, drop, replace_once}
use windowframe.Log.Context.{CtxApi, text_key, text_value}
use windowframe.Log.{text_in}

module _ {Ctx : Type 0} (api : CtxApi Ctx) where
  -- SetContextID and SetTraceID
  unfoldable pub set_context_id : Ctx → String → Ctx
  set_context_id ctx id = api.with_value (text_key "request_id") (text_value id) ctx

  unfoldable pub set_trace_id : Ctx → String → Ctx
  set_trace_id ctx id = api.with_value (text_key "trace_id") (text_value id) ctx

  abbrev or_empty : Option String → String
  or_empty none = ""
  or_empty (some s) = s

  -- ContextID and TraceID
  unfoldable pub context_id : Ctx → String
  context_id ctx = or_empty (text_in api "request_id" ctx)

  unfoldable pub trace_id : Ctx → String
  trace_id ctx = or_empty (text_in api "trace_id" ctx)

-- http.Cookie, as far as the program sets it
pub record Cookie : Type 0 where
  pub name : String
  pub token : Bytes
  pub path : String
  pub domain : Bytes
  pub secure : Bool
  pub http_only : Bool
  pub same_site_none : Bool
  pub expires : ℕ

-- Request.Cookie, on the cookies of a request; `none` is its error.
unfoldable pub find_cookie : String → List Cookie → Option Cookie
find_cookie name [] = none
find_cookie name (c ∷ cs) =
    let rest = find_cookie name cs in elim (c.name == name) [ true ↦ some c | false ↦ rest ]

abbrev cookie_token : Option Cookie → Bytes
cookie_token none = []
cookie_token (some c) = c.token

-- GetToken: the header Authorization, which is empty where it is missing, or the cookie
unfoldable pub get_token : Bytes → List Cookie → Bytes
get_token [] cookies = cookie_token (find_cookie "user-auth" cookies)
get_token (c ∷ header) cookies = replace_once (codes "Bearer ") [] (c ∷ header)

abbrev refresh_token : Err → Option Cookie → Bytes × Option Err
refresh_token no_cookie none = ([], some (wrap "get refresh token from cookie" no_cookie))
refresh_token no_cookie (some c) = (c.token, none)

-- GetRefreshToken
unfoldable pub get_refresh_token : Err → List Cookie → Bytes × Option Err
get_refresh_token no_cookie cookies = refresh_token no_cookie (find_cookie "user-refresh" cookies)

-- The domain of a cookie: the host name of the text, if it parses and the name is not empty
abbrev cookie_domain : Option Bytes → Bytes → Bytes
cookie_domain none domain = domain
cookie_domain (some []) domain = domain
cookie_domain (some (c ∷ host)) domain = c ∷ host

abbrev token_cookie : String → (Bytes → Option Bytes) → ℕ → Bytes → Bytes → Cookie
token_cookie name hostname now domain token = record {
  name = name;
  token = token;
  path = "/";
  domain = cookie_domain (hostname domain) domain;
  secure = true;
  http_only = true;
  same_site_none = true;
  expires = now + 30 * 24 * 3600 * 10 ^ 9;
}

-- SetUserAuthCookie and SetUserRefreshTokenCookie
unfoldable pub set_user_auth_cookie : (Bytes → Option Bytes) → ℕ → Bytes → Bytes → Cookie
set_user_auth_cookie = token_cookie "user-auth"

unfoldable pub set_user_refresh_token_cookie : (Bytes → Option Bytes) → ℕ → Bytes → Bytes → Cookie
set_user_refresh_token_cookie = token_cookie "user-refresh"

drop-length : (xs ys : Bytes) → drop (length xs) (xs ++ ys) ≡ ys
drop-length [] ys = refl
drop-length (x ∷ xs) ys = drop-length xs ys

-- A client that sends the two cookies back, in either order, is read as the holder of the tokens that they were set to, by
-- GetToken if it sends no Authorization header, and by GetRefreshToken; a bearer token of the header has
-- precedence, whatever it is.
pub get_token-set_user_auth_cookie :
    (hostname : Bytes → Option Bytes) (now : ℕ) (domain auth refresh bearer : Bytes)
    (no_cookie : Err)
    → (let a = set_user_auth_cookie hostname now domain auth in
        let r = set_user_refresh_token_cookie hostname now domain refresh in
        (get_token [] (a ∷ r ∷ []) ≡ auth)
        × (get_token [] (r ∷ a ∷ []) ≡ auth)
        × (get_refresh_token no_cookie (a ∷ r ∷ []) ≡ (refresh, none))
        × (get_refresh_token no_cookie (r ∷ a ∷ []) ≡ (refresh, none))
        × (get_token (codes "Bearer " ++ bearer) (a ∷ r ∷ []) ≡ bearer))
unfolding get_token get_refresh_token set_user_auth_cookie set_user_refresh_token_cookie find_cookie
    replace_once
get_token-set_user_auth_cookie hostname now domain auth refresh bearer no_cookie =
    (refl, refl, refl, refl, refl)
