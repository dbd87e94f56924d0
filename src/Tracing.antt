-- ===== src/Tracing.antt =====
-- tracing/tracing.go and otel/otel.go: setting the tracer up, and the spans and ids that come from it. The libraries are given by
-- the errors that they return; a float64 is a value of `F` with the test for zero and the number one.
use windowframe.Prelude.{
  ◌≡◌, ◌≢◌, refl, String, String_comparable, ◌==◌, ==_iff, Bool, Bool-cases, true, not, inl, inr,
  Option, none, some, List, [], ◌∷◌, ◌++◌, if◌then◌else◌,
}
use windowframe.Errors.{Err, wrap}

-- The exporter that InitTracer asks for
pub data Exporter : Type 0 where
  stdout : Exporter
  otlp_at : String → Exporter
  otlp_from_environment : Exporter

unfoldable exporter_of : String → Exporter
exporter_of endpoint =
    if endpoint == "stdout"
    then stdout
    else if not (endpoint == "")
    then otlp_at endpoint
    else otlp_from_environment

abbrev attr : String → String → List (String × String)
attr key value = if not (value == "") then (key, value) ∷ [] else []

-- The attributes of the service, by the names of their keys
unfoldable service_attrs : String → String → String → List (String × String)
service_attrs service version environment =
    attr "service.name" service ++ attr "service.version" version ++ attr "environment" environment

abbrev owner_or : String → Option String → String
owner_or fallback none = fallback
owner_or fallback (some username) = if not (username == "") then username else fallback

-- processOwnerAttribute, from the name of the current user (`none` for an error) and the text of the user's id
unfoldable process_owner_attribute : Option String → String → String × String
process_owner_attribute current_user fallback = ("process.owner", owner_or fallback current_user)

module _ {F : Type 0} (is_zero : F → Bool) (one : F) where
  -- TracingOpts
  pub record TracingOpts : Type 0 where
    pub service_name : String
    pub endpoint : String
    pub environment : String
    pub sample_rate : F
    pub profiling_enabled : Bool

  -- What InitTracer makes a provider of
  pub record Provider : Type 0 where
    pub exporter : Exporter
    pub attrs : List (String × String)
    pub sampled : F
    pub profiled : Bool

  -- The variables of the package
  pub record Globals : Type 0 where
    pub name : String
    pub tracer_provider : Option Provider

  unfoldable sample_rate_or_one : F → F
  sample_rate_or_one r = if is_zero r then one else r

  abbrev provider_of : TracingOpts → String → Provider
  provider_of conf version = record {
    exporter = exporter_of conf.endpoint;
    attrs = service_attrs conf.service_name version conf.environment;
    sampled = sample_rate_or_one conf.sample_rate;
    profiled = conf.profiling_enabled;
  }

  abbrev with_resource : TracingOpts → String → Option Err → Globals → Globals × Option Err
  with_resource conf version (some e) g = (g, some e)
  with_resource conf version none g =
      (record g { tracer_provider = some (provider_of conf version) }, none)

  abbrev with_exporter :
      TracingOpts
      → String
      → Option Err
      → (List (String × String) → Option Err)
      → Globals
      → Globals × Option Err
  with_exporter conf version (some e) new_resource g = (g, some e)
  with_exporter conf version none new_resource g =
      with_resource conf version
        (new_resource (service_attrs conf.service_name version conf.environment)) g

  -- InitTracer, from the errors of the exporter and of resource.New
  unfoldable init_tracer :
      (Exporter → Option Err)
      → (List (String × String) → Option Err)
      → TracingOpts
      → String
      → Globals
      → Globals × Option Err
  unfolding exporter_of service_attrs sample_rate_or_one
  init_tracer new_exporter new_resource conf version g =
      with_exporter conf version (new_exporter (exporter_of conf.endpoint)) new_resource
        (record g { name = conf.service_name })

  abbrev after_tracer : Option Err → Globals × Option Err → Globals × Option Err
  after_tracer prom (g, some e) = (g, some (wrap "init otel tracer" e))
  after_tracer (some e) (g, none) = (g, some (wrap "init otel prom exporter" e))
  after_tracer none (g, none) = (g, none)

  -- otel.Init, with the error of the prometheus exporter
  unfoldable init :
      (Exporter → Option Err)
      → (List (String × String) → Option Err)
      → Option Err
      → TracingOpts
      → String
      → Globals
      → Globals × Option Err
  unfolding init_tracer
  init new_exporter new_resource prom conf version g =
      after_tracer prom (init_tracer new_exporter new_resource conf version g)

  -- When the exporter of the metrics fails, Init returns an error and no function to shut the tracer down, although the
  -- tracer was set up and stays the provider of the package.
  init_prom_error :
      (new_exporter : Exporter → Option Err) (new_resource : List (String × String) → Option Err)
      (e : Err) (conf : TracingOpts) (version : String) (g : Globals)
      → new_exporter (exporter_of conf.endpoint) ≡ none
      → new_resource (service_attrs conf.service_name version conf.environment) ≡ none
      → init new_exporter new_resource (some e) conf version g ≡ (
        record { name = conf.service_name; tracer_provider = some (provider_of conf version) },
        some (wrap "init otel prom exporter" e),
      )
  unfolding init
  init_prom_error new_exporter new_resource e conf version g exported resourced =
      rw (exported, resourced) refl

-- The owner of the process has a name wherever the user's id has a text.
process_owner_named :
    (current_user : Option String) (fallback : String)
    → fallback ≢ ""
    → (process_owner_attribute current_user fallback).1 ≢ ""
unfolding process_owner_attribute
process_owner_named none fallback h = h
process_owner_named (some username) fallback h = elim (Bool-cases (username == "")) [
  | inl empty ↦ rw empty h
  | inr named ↦
      rw named (λ e. let t : (username == "") ≡ true = (==_iff username "").1 e in cc (t, named))
]

-- TraceID of the span of a context: the text of its trace id, if it has one
unfoldable trace_id : Option String → String
trace_id none = ""
trace_id (some id) = id
