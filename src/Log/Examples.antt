-- ===== src/Log/Examples.antt =====
-- The theorem on WithLogAttr at a context with one map.
use windowframe.Prelude.{
  ℕ, ◌≡◌, true, some, [], ◌∷◌, String, String_comparable, Assoc, lookup, arith,
}
use mathlib.Core.List.{Memᴰ}
use windowframe.Log.Context.{log_attrs, text_key, text_value, attrs_at}
use windowframe.Log.{
  map_at, AnyValue, string_any, bool_any, slog_value, Store, bool_value, get_log_attrs,
  with_log_attr, handle,
}
use windowframe.Log.Values.{Values, value_of, values, values-IsCtx}
use windowframe.Log.Attrs.{IsStored, handle-with_log_attr}

abbrev widen : ℕ → ℕ
widen bits = bits

abbrev in_order : Assoc String AnyValue → Assoc String AnyValue
in_order m = m

abbrev store : Store
store = (("tenant", string_any "a") ∷ []) ∷ []

abbrev parent : Values
parent = (log_attrs, attrs_at 0) ∷ (text_key "request_id", text_value "r1") ∷ []

handle-with_log_attr_example :
    (let (s1, child) = with_log_attr values "admin" (bool_any true) store parent in
      Memᴰ ("admin", bool_value true) (handle values widen in_order s1 child [])
      × (lookup "tenant" (get_log_attrs values s1 child) ≡ some (string_any "a"))
      × (handle values widen in_order s1 parent [] ≡ handle values widen in_order store parent [])
      × IsStored s1 (value_of log_attrs child)
      × IsStored s1 (value_of log_attrs parent))
unfolding with_log_attr handle slog_value get_log_attrs lookup map_at
handle-with_log_attr_example =
    handle-with_log_attr values values-IsCtx widen in_order "admin" "tenant" (bool_any true) store
      parent parent [] (λ m x d. d) (omega arith)
