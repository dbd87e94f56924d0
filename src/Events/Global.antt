-- ===== src/Events/Global.antt =====
-- events/events.go: the handler of the package. `H` is a handler and `R` what its method returns; `none` is the panic of a nil
-- global.
use windowframe.Prelude.{Option, none, some}

module _ {H : Type 0} where
  -- SetGlobal
  unfoldable set_global : H → Option H → Option H
  set_global h global = some h

  abbrev on_global : {R : Type 0} → (H → R) → Option H → Option R
  on_global method none = none
  on_global method (some h) = some (method h)

  -- Listen, Dispatch and DispatchChannel, from the method of the handler that each calls
  unfoldable listen : {R : Type 0} → (H → R) → Option H → Option R
  listen method global = on_global method global

  unfoldable dispatch : {R : Type 0} → (H → R) → Option H → Option R
  dispatch method global = on_global method global

  unfoldable dispatch_channel : {R : Type 0} → (H → R) → Option H → Option R
  dispatch_channel method global = on_global method global
