-- ===== src/Config/Parser.antt =====
-- config/parser.go, config/env.go, config/yaml.go and config/redacted.go. An extractor changes the configuration
-- and returns an error or not; what it has changed before an error stays. The calls of go-envconfig and of
-- yaml.v3 are parameters. The text of a RedactedString is a list of bytes.
use windowframe.Prelude.{ℕ, String, ◌≡◌, Option, none, some, List, [], ◌∷◌, ◌++◌}
use windowframe.Errors.{Err, wrap}

-- Extract
abbrev pub Extractor : Type 0 → Type 0
Extractor Conf = Conf → Conf × Option Err

pub record Parser (Conf : Type 0) : Type 0 where
  pub extractors : List (Extractor Conf)

unfoldable pub new_parser : {Conf : Type 0} → Parser Conf
new_parser = record { extractors = [] }

abbrev wrapped : String → Option Err → Option Err
wrapped m none = none
wrapped m (some e) = some (wrap m e)

module _ {Conf : Type 0} where
  -- WithExtractors
  unfoldable pub with_extractors : List (Extractor Conf) → Parser Conf → Parser Conf
  with_extractors es p = record p { extractors = p.extractors ++ es }

  abbrev pub extracted : Conf → Option Err → Conf × Option Err → Conf × Option Err
  extracted conf (some err) rest = (conf, some (wrap "run extractor" err))
  extracted conf none rest = rest

  unfoldable pub run_extractors : List (Extractor Conf) → Conf → Conf × Option Err
  run_extractors [] conf = (conf, none)
  run_extractors (e ∷ es) conf = let (c, r) = e conf in extracted c r (run_extractors es c)

  -- Parse; `zero_conf` is the zero value of the configuration's type.
  unfoldable pub parse : Conf → Parser Conf → Conf × Option Err
  unfolding run_extractors
  parse zero_conf p = run_extractors p.extractors zero_conf

  -- EnvExtractor.Extract, over envconfig.Process with the mutators
  unfoldable pub env_extract : (Conf → Conf × Option Err) → Extractor Conf
  env_extract process conf = let (c, e) = process conf in (c, wrapped "process env" e)

  -- YamlExtractor.Extract, over yaml.Unmarshal
  unfoldable pub yaml_extract : (List ℕ → Conf → Conf × Option Err) → List ℕ → Extractor Conf
  yaml_extract unmarshal bytes conf =
      let (c, e) = unmarshal bytes conf in (c, wrapped "unmarshal yaml to config" e)

  -- What extractors that return no error make of a configuration, one after another.
  pub data Runs : List (Extractor Conf) → Conf → Conf → Type 0 where
    done : {c : Conf} → Runs [] c c
    followed :
        {e : Extractor Conf} {es : List (Extractor Conf)} {c d r : Conf}
        → e c ≡ (d, none)
        → Runs es d r
        → Runs (e ∷ es) c r
