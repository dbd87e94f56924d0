-- ===== src/Config/Examples.antt =====
-- A configuration from flags, and the theorems there.
use windowframe.Prelude.{
  ℕ, ◌+◌, String, String_comparable, ◌==◌, ◌≡◌, refl, ◌↔◌, true, none, some, if◌then◌else◌,
}
use windowframe.Errors.{foreign}
use windowframe.Config.Parser.{Extractor, extracted as after_extract}
use windowframe.Config.Flags.{
  string, int, struct, Getter, get_int, Got, got, got_error, FlagSet, Fields, no_fields, field,
  extracted, extract,
}
use windowframe.Config.Flags.Fills.{AllFilled, extract-AllFilled}

abbrev bump : Extractor ℕ
bump n = (n + 1, none)

abbrev breaks : Extractor ℕ
breaks n = (n + 10, some (foreign "bad yaml"))

abbrev answer : Getter → String → Got ℕ
answer get_int tag =
    if tag == "port" then got 8080 else got_error (foreign "flag accessed but not defined")
answer _ tag = got_error (foreign "trying to get value of flag of another type")

abbrev flags : FlagSet ℕ
flags = record { parsed = true; get = answer }

abbrev port : ℕ → Fields ℕ
port n =
    field (record { name = "HTTP"; kind = struct; tag = "" }) 0
      (field (record { name = "Port"; kind = int; tag = "port" }) n no_fields no_fields)
      (field (record { name = "Name"; kind = string; tag = "-" }) 7 no_fields no_fields)

extract-AllFilled_example :
    (extract flags (port 0) ≡ (port 8080, extracted))
    ↔ ((true ≡ true) × AllFilled flags (port 0) (port 8080))
extract-AllFilled_example = extract-AllFilled flags (port 0) (port 8080)

port_read : extract flags (port 0) ≡ (port 8080, extracted)
unfolding extract
port_read = refl
