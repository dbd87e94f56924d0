-- ===== src/Errors.antt =====
-- Go's error values as the program builds them: sentinels of errors.New, the typed errors that
-- errors.As looks for, and trees of fmt.Errorf with %w and errors.Join (errors/errors.go passes Is, As and Unwrap on).
-- Is and As go through a tree depth first.
-- `foreign` stands for any other error value, told apart by its text.
use windowframe.Prelude.{ℕ, String, Bool, true, false, Option, none, some, Assoc, ◌||◌}

pub data Sentinel : Type 0 where
  -- queue/errors.go
  skip_retry dead_letter : Sentinel
  -- http/httperrors/errors.go
  bad_request validation unauth forbidden not_found : Sentinel
  -- http/middleware/idempotent.go
  idempotent_locked idempotent_missing : Sentinel
  -- events/events.go, events/wrapper.go
  unregistered_event unknown_type invalid_event_type : Sentinel
  -- storage/storage.go
  unsupported_storage_type invalid_root_dir : Sentinel
  -- pgx.ErrNoRows, sql.ErrNoRows, gorm.ErrRecordNotFound
  pgx_no_rows sql_no_rows gorm_record_not_found : Sentinel

pub Sentinel-discrete : Discrete Sentinel
Sentinel-discrete = hlevel

pub data Err : Type 0 where
  sentinel : Sentinel → Err
  -- *echo.HTTPError: its code and message
  http_error : ℕ → String → Err
  -- an *echo.HTTPError with an inner error, which Unwrap gives
  http_error_of : ℕ → String → Err → Err
  -- another error type of echo with a StatusCode method
  status_error : ℕ → Err
  -- *validation.ValidationError: its fields and messages
  validation_error : Assoc String String → Err
  -- *pgconn.PgError: its SQLSTATE code
  pg_error : String → Err
  foreign : String → Err
  -- fmt.Errorf with %w
  wrap : String → Err → Err
  -- errors.Join, or fmt.Errorf with %w twice; more errors are joined to the right
  joined : Err → Err → Err

abbrev same_sentinel : Sentinel → Sentinel → Bool
same_sentinel a b = elim (Sentinel-discrete a b) [ yes p ↦ true | no p ↦ false ]

-- errors.Is at a sentinel
unfoldable pub is_error : Sentinel → Err → Bool
unfolding Sentinel-discrete
is_error s (sentinel t) = same_sentinel t s
is_error s (wrap m e) = is_error s e
is_error s (http_error_of c m e) = is_error s e
is_error s (joined e f) = is_error s e || is_error s f
is_error s _ = false

-- The first that is found
abbrev pub or_else : {A : Type 0} → Option A → Option A → Option A
or_else none b = b
or_else (some x) b = some x

-- errors.As at the type *echo.HTTPError
unfoldable pub as_http_error : Err → Option (ℕ × String)
as_http_error (http_error code message) = some (code, message)
as_http_error (http_error_of code message e) = some (code, message)
as_http_error (wrap m e) = as_http_error e
as_http_error (joined e f) = or_else (as_http_error e) (as_http_error f)
as_http_error _ = none

-- errors.As at the interface echo.HTTPStatusCoder
unfoldable pub as_status_coder : Err → Option ℕ
as_status_coder (http_error code message) = some code
as_status_coder (status_error code) = some code
as_status_coder (http_error_of code message e) = some code
as_status_coder (wrap m e) = as_status_coder e
as_status_coder (joined e f) = or_else (as_status_coder e) (as_status_coder f)
as_status_coder _ = none

-- errors.As at the type *validation.ValidationError
unfoldable pub as_validation_error : Err → Option (Assoc String String)
as_validation_error (validation_error fields) = some fields
as_validation_error (wrap m e) = as_validation_error e
as_validation_error (http_error_of c m e) = as_validation_error e
as_validation_error (joined e f) = or_else (as_validation_error e) (as_validation_error f)
as_validation_error _ = none

-- errors.AsType at *pgconn.PgError
unfoldable pub as_pg_error : Err → Option String
as_pg_error (pg_error code) = some code
as_pg_error (wrap m e) = as_pg_error e
as_pg_error (http_error_of c m e) = as_pg_error e
as_pg_error (joined e f) = or_else (as_pg_error e) (as_pg_error f)
as_pg_error _ = none
