-- ===== src/Redis.antt =====
-- redis/redis.go: the options of a client, and CheckCanWrite. What the client library answers is given: the answer to each SET,
-- and the client that it makes of the options, with tracing or without.
use windowframe.Prelude.{
  ◌≡◌, sym, ◌∙◌, Bool, true, false, Option, none, some, List, [], ◌∷◌, ◌++◌, map, String, ℤ, pos,
  negsuc, zero, suc, if◌then◌else◌,
}
use mathlib.Core.List.{append-nil, append_assoc}
use windowframe.Errors.{Err}

pub record RedisOpts : Type 0 where
  pub addr : String
  pub password : String
  pub max_flush_delay : ℤ
  pub tracing_enabled : Bool

-- rueidis.ClientOption, where a delay of zero is the value of a field that is not set
pub record ClientOption : Type 0 where
  pub init_address : List String
  pub client_password : String
  pub flush_delay : ℤ

abbrev with_delay : ℤ → ClientOption → ClientOption
with_delay (pos zero) copts = copts
with_delay (pos (suc n)) copts = record copts { flush_delay = pos (suc n) }
with_delay (negsuc n) copts = record copts { flush_delay = negsuc n }

unfoldable client_option : RedisOpts → ClientOption
client_option opts = with_delay opts.max_flush_delay (record {
  init_address = opts.addr ∷ [];
  client_password = opts.password;
  flush_delay = pos zero;
})

-- New
unfoldable new : {C : Type 0} → (ClientOption → C) → (ClientOption → C) → RedisOpts → C
unfolding client_option
new traced_client client opts =
    if opts.tracing_enabled then traced_client (client_option opts) else client (client_option opts)

module _ {S : Type 0} (f : Bool → S → S) where
  -- The loop of CheckCanWrite, over the answers at its ticks until the context is done
  unfoldable check_can_write : List (Option Err) → S → S
  check_can_write [] s = s
  check_can_write (some e ∷ answers) s = check_can_write answers (f false s)
  check_can_write (none ∷ answers) s = check_can_write answers (f true s)

abbrev status : Option Err → Bool
status none = true
status (some e) = false

-- The callback is told once for each tick, in their order, whether the write of that tick had no error.
check_can_write-map :
    (answers : List (Option Err)) (told : List Bool)
    → check_can_write (λ b l. l ++ b ∷ []) answers told ≡ told ++ map status answers
unfolding check_can_write
check_can_write-map [] told = sym (append-nil told)
check_can_write-map (some e ∷ answers) told =
    check_can_write-map answers (told ++ false ∷ [])
    ∙ append_assoc told (false ∷ []) (map status answers)
check_can_write-map (none ∷ answers) told =
    check_can_write-map answers (told ++ true ∷ [])
    ∙ append_assoc told (true ∷ []) (map status answers)
