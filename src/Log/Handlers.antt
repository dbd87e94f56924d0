-- ===== src/Log/Handlers.antt =====
-- log/handler.go: the struct Handler, which embeds a slog.Handler. Its method Handle is its own, the others are those of the
-- embedded handler.
use windowframe.Prelude.{ℕ, List, ◌++◌, String, Assoc}
use windowframe.Log.Context.{CtxApi}
use windowframe.Log.{AnyValue, Store, Attr, handle}

-- A handler that writes, with the attributes that WithAttrs gave it, or a Handler around another
pub data SlogHandler : Type 0 where
  writer : List Attr → SlogHandler
  handler : SlogHandler → SlogHandler

-- NewHandler
unfoldable pub new_handler : SlogHandler → SlogHandler
new_handler h = handler h

-- WithAttrs: that of a Handler is the embedded one's, whose result is not put into a Handler again.
unfoldable pub with_attrs : List Attr → SlogHandler → SlogHandler
with_attrs attrs (writer preset) = writer (preset ++ attrs)
with_attrs attrs (handler h) = with_attrs attrs h

module _ {Ctx : Type 0} (api : CtxApi Ctx) (widen : ℕ → ℕ)
    (walk : Assoc String AnyValue → Assoc String AnyValue) where
  -- The attributes that are written for a record
  unfoldable pub written : SlogHandler → Store → Ctx → List Attr → List Attr
  written (writer preset) s ctx record_attrs = preset ++ record_attrs
  written (handler h) s ctx record_attrs =
      written h s ctx (handle api widen walk s ctx record_attrs)
