-- ===== src/Http/RequestLog/Ids.antt =====
-- The ids of a request in the records that are logged while it is served, and in the record of LoggerAt.
use windowframe.Prelude.{
  ℕ, ◌≡◌, refl, ap, sym, ◌∙◌, Bool, true, false, not, Option, none, some, List, [], ◌∷◌, ◌++◌,
  String, String_comparable, ◌==◌, Assoc, if◌then◌else◌,
}
use mathlib.Core.List.{append-nil}
use windowframe.Errors.{Err}
use windowframe.Log.Context.{text_key, log_attrs, text_value, CtxApi, IsCtx}
use windowframe.Log.{
  AnyValue, Store, Attr, string_value, as_text, as_attrs, add_text, text_in, get_log_attrs, handle,
}
use windowframe.Log.Handlers.{SlogHandler, new_handler, with_attrs, written}
use windowframe.Http.Common.{set_context_id, set_trace_id}
use windowframe.Http.RequestLog.{Request, Level, zap, with_request_id, with_trace_id, logger_at}

-- One id as an attribute, if it is not empty
abbrev pub id_attr : String → String → List Attr
id_attr key id = if not (id == "") then (key, string_value id) ∷ [] else []

abbrev known : String → Option String → Option String
known id before = if not (id == "") then some id else before

if_ap :
    {A B : Type 0} (f : A → B) (b : Bool) (x y : A)
    → f (if b then x else y) ≡ (if b then f x else f y)
if_ap f true x y = refl
if_ap f false x y = refl

if_same : {A : Type 0} (b : Bool) (x : A) → (if b then x else x) ≡ x
if_same true x = refl
if_same false x = refl

if_swap :
    {A : Type 0} (b c : Bool) (x y : A)
    → (if b then (if c then x else y) else y) ≡ (if c then (if b then x else y) else y)
if_swap true c x y = refl
if_swap false c x y = sym (if_same c y)

module _ {Ctx : Type 0} (api : CtxApi Ctx) (laws : IsCtx api) where
  text_in-set :
      (j k v : String) (ctx : Ctx)
      → text_in api j (api.with_value (text_key k) (text_value v) ctx)
        ≡ (if k == j then some v else text_in api j ctx)
  unfolding text_in
  text_in-set j k v ctx =
      rw (laws.value-with_value (text_key j) (text_key k) (text_value v) ctx) (by_case (k == j))
    where
      by_case :
          (b : Bool)
          → as_text api (if b then some (text_value v) else api.value (text_key j) ctx)
            ≡ (if b then some v else text_in api j ctx)
      by_case true = refl
      by_case false = unfold text_in in refl

  get_log_attrs-set :
      (k v : String) (s : Store) (ctx : Ctx)
      → get_log_attrs api s (api.with_value (text_key k) (text_value v) ctx)
        ≡ get_log_attrs api s ctx
  unfolding get_log_attrs
  get_log_attrs-set k v s ctx =
      ap (as_attrs api s) (laws.value-with_value log_attrs (text_key k) (text_value v) ctx)

  text_in-with_request_id :
      (span_trace : Ctx → String) (j id : String) (ctx : Ctx)
      → text_in api j (with_request_id api span_trace id ctx)
        ≡ (if "request_id" == j then known id (text_in api j ctx) else text_in api j ctx)
  unfolding set_context_id
  text_in-with_request_id span_trace j id ctx =
      if_ap (text_in api j) (not (id == "")) _ ctx
      ∙ rw (text_in-set j "request_id" id ctx)
          (if_swap (not (id == "")) ("request_id" == j) (some id) (text_in api j ctx))

  text_in-with_trace_id :
      (span_trace : Ctx → String) (j : String) (ctx : Ctx)
      → text_in api j (with_trace_id api span_trace ctx) ≡ (
          if "trace_id" == j then known (span_trace ctx) (text_in api j ctx) else text_in api j ctx)
  unfolding set_trace_id
  text_in-with_trace_id span_trace j ctx =
      if_ap (text_in api j) (not (span_trace ctx == "")) _ ctx
      ∙ rw (text_in-set j "trace_id" (span_trace ctx) ctx) (
          if_swap (not (span_trace ctx == "")) ("trace_id" == j) (some (span_trace ctx))
            (text_in api j ctx))

  get_log_attrs-zap :
      (span_trace : Ctx → String) (id : String) (s : Store) (ctx : Ctx)
      → get_log_attrs api s (zap api span_trace id ctx) ≡ get_log_attrs api s ctx
  unfolding zap set_context_id set_trace_id
  get_log_attrs-zap span_trace id s ctx =
      let c1 = with_request_id api span_trace id ctx in
      set_if "trace_id" (span_trace c1) (not (span_trace c1 == "")) c1
      ∙ set_if "request_id" id (not (id == "")) ctx
    where
      set_if :
          (k v : String) (b : Bool) (c : Ctx)
          → get_log_attrs api s (if b then api.with_value (text_key k) (text_value v) c else c)
            ≡ get_log_attrs api s c
      set_if k v true c = get_log_attrs-set k v s c
      set_if k v false c = refl

  -- The texts under the context of Zap: its ids, and for the other keys those of the request
  text_in-zap :
      (span_trace : Ctx → String) (id j : String) (ctx : Ctx)
      → text_in api j (zap api span_trace id ctx) ≡ (
          let c1 = with_request_id api span_trace id ctx in
          let before =
            if "request_id" == j then known id (text_in api j ctx) else text_in api j ctx in
          if "trace_id" == j then known (span_trace c1) before else before)
  unfolding zap
  text_in-zap span_trace id j ctx =
      text_in-with_trace_id span_trace j (with_request_id api span_trace id ctx)
      ∙ rw (text_in-with_request_id span_trace j id ctx) refl

  add_text-known :
      (key id : String) (attrs : List Attr)
      → add_text api key (known id none) attrs ≡ attrs ++ id_attr key id
  add_text-known key id attrs = by_case (not (id == ""))
    where
      by_case :
          (b : Bool)
          → add_text api key (if b then some id else none) attrs
            ≡ attrs ++ (if b then (key, string_value id) ∷ [] else [])
      by_case true = refl
      by_case false = sym (append-nil attrs)

  zap_ids :
      (span_trace : Ctx → String) (widen : ℕ → ℕ)
      (walk : Assoc String AnyValue → Assoc String AnyValue) (id : String) (s : Store) (ctx : Ctx)
      (record_attrs : List Attr)
      → text_in api "request_id" ctx ≡ none
      → text_in api "trace_id" ctx ≡ none
      → handle api widen walk s (zap api span_trace id ctx) record_attrs
        ≡ handle api widen walk s ctx (
            record_attrs
            ++ id_attr "request_id" id
            ++ id_attr "trace_id" (span_trace (with_request_id api span_trace id ctx)))
  unfolding handle
  zap_ids span_trace widen walk id s ctx record_attrs no_request no_trace =
      rw
        (
          text_in-zap span_trace id "request_id" ctx,
          text_in-zap span_trace id "trace_id" ctx,
          text_in-zap span_trace id "user_id" ctx,
          text_in-zap span_trace id "team_id" ctx,
          get_log_attrs-zap span_trace id s ctx,
          no_request,
          no_trace,
          add_text-known "request_id" id record_attrs,
          add_text-known "trace_id" (span_trace (with_request_id api span_trace id ctx)),
        )
        refl

  -- A record that is logged while a request is served carries the request's id and the id of its span, each unless
  -- it is empty, in front of what else the context adds: it is the record with these two attributes, logged
  -- under the context that Zap was given. The record of LoggerAt for the request is the same whether the default logger
  -- writes by way of a Handler or not, so it carries neither the request's id nor any other attribute
  -- of the context. The context that Zap is given has no ids yet.
  pub handle-zap :
      (span_trace : Ctx → String) (widen : ℕ → ℕ)
      (walk : Assoc String AnyValue → Assoc String AnyValue) (id : String) (s : Store) (ctx : Ctx)
      (record_attrs : List Attr) {S : Type 0} (text_of_int : ℕ → String)
      (text_of_duration : ℕ → String) (error_text : Err → String) (response : S → Option (ℕ × ℕ))
      (http_error_handler : Err → S → S) (h : SlogHandler) (level : Level)
      (mut : List (Ctx → SlogHandler → SlogHandler)) (req : Request) (dur : ℕ)
      (result : S × Option Err)
      → text_in api "request_id" ctx ≡ none
      → text_in api "trace_id" ctx ≡ none
      → (let c1 = with_request_id api span_trace id ctx in
          let c2 = zap api span_trace id ctx in
          (written api widen walk (new_handler h) s c2 record_attrs
            ≡ written api widen walk h s c2 (
                handle api widen walk s ctx
                  (record_attrs ++ id_attr "request_id" id ++ id_attr "trace_id" (span_trace c1))))
          × (logger_at api span_trace text_of_int text_of_duration error_text response
                http_error_handler
                (new_handler h)
                level
                mut
                req
                dur
                c2
                result
              ≡ logger_at api span_trace text_of_int text_of_duration error_text response
                  http_error_handler h level mut req dur c2 result))
  unfolding written new_handler with_attrs logger_at
  handle-zap span_trace widen walk id s ctx record_attrs text_of_int text_of_duration error_text
        response http_error_handler h level mut req dur result no_request no_trace =
      (
        ap (written api widen walk h s (zap api span_trace id ctx))
            (zap_ids span_trace widen walk id s ctx record_attrs no_request no_trace),
        refl,
      )
