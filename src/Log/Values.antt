-- ===== src/Log/Values.antt =====
-- Contexts as lists of keys and values: an instance of the interface of contexts.
use windowframe.Prelude.{refl, Option, none, some, List, [], ◌∷◌, if◌then◌else◌}
use windowframe.Log.Context.{CtxKey, CtxValue, same_key, CtxApi, IsCtx}

abbrev pub Values : Type 0
Values = List (CtxKey × CtxValue)

abbrev pub value_of : CtxKey → Values → Option CtxValue
value_of j [] = none
value_of j ((k, v) ∷ ctx) = let rest = value_of j ctx in if same_key k j then some v else rest

abbrev pub values : CtxApi Values
values = record { with_value = λ k v ctx. (k, v) ∷ ctx; value = value_of }

pub values-IsCtx : IsCtx values
values-IsCtx = record { value-with_value = λ j k v ctx. refl }
