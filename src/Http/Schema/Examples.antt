-- ===== src/Http/Schema/Examples.antt =====
-- A handler with one enabled scheme that is optional to have, behind a configured scheme.
use windowframe.Prelude.{◌≡◌, Bool, true, false, none, [], ◌∷◌, String, String_comparable, ◌==◌}
use windowframe.Text.{codes}
use windowframe.Http.Schema.{Metadata, AuthConfig, new_schemes, schema_calls}
use windowframe.Http.Schema.Security.{requirements, one_met, one_met-schema_calls}

abbrev config : AuthConfig
config = record { enabled = true; name = "user"; format = "jwt"; description = "" }

abbrev meta : Bool → Metadata
meta optional = record {
  name = "List";
  description = "";
  tag = "items";
  id = none;
  code = 200;
  method = "GET";
  path = codes "/items";
  auths =
      record { enabled = true; name = "user"; scopes = [] }
      ∷ record { enabled = false; name = "team"; scopes = [] }
      ∷ [];
  auth_optional = optional;
}

-- A client that has the disabled scheme only
abbrev has : String → Bool
has name = name == "team"

one_met-schema_calls_example :
    one_met (requirements has (schema_calls (new_schemes (config ∷ [])).auth_enabled (meta false)))
    ≡ false
one_met-schema_calls_example = one_met-schema_calls has (config ∷ []) (meta false)
