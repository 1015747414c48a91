-- ===== src/Config/Decoding.antt =====
-- internal/config/dto.go and loader.go: from the decoded YAML to a validated configuration. The readers,
-- viper with mapstructure, are what they return; a Go map is the list of its entries. The copies that
-- toModel makes of maps and slices have the same entries.
pub mod Fields
pub mod Loaded
mod Tests
use vuhive.Prelude.{
  String, List, [], ◌∷◌, Option, none, some, Bool, true, false, not, ◌&&◌, ℤ, pos, is_zero,
  is_empty, Result, ok, err, FloatOps, if◌then◌else◌,
}
use vuhive.Config.Model.{
  Config, ScenarioConfig, StageConfig, ThresholdConfig, ThinkTimeConfig, HttpConfig, TlsConfig,
  HttpPoolConfig, ValidationError,
}
use vuhive.Config.Delays.{DelayValidatorFunc}
use vuhive.Config.Thresholds.{Parsers}
use vuhive.Config.Validate.{validate}

pub record StageConfigDto : Type 0 where
  pub target : ℤ
  pub duration : ℤ

pub record ThinkTimeConfigDto : Type 0 where
  pub kind : String
  pub duration : ℤ
  pub min : ℤ
  pub max : ℤ
  pub mean : ℤ
  pub std_dev : ℤ

pub record ThresholdConfigDto : Type 0 where
  pub metric : String
  pub stat : String
  pub operator : String
  pub target : String
  pub on_no_data : String
  pub abort_on_fail : Bool
  pub delay_abort_eval : ℤ

pub record TlsConfigDto : Type 0 where
  pub insecure_skip_verify : Bool

pub record HttpPoolConfigDto : Type 0 where
  pub max_idle_conns : ℤ
  pub max_idle_conns_per_host : ℤ
  pub idle_conn_timeout : ℤ

pub record HttpConfigDto : Type 0 where
  pub base_url : String
  pub timeout : ℤ
  pub headers : List (String × String)
  pub tls : TlsConfigDto
  pub pool : HttpPoolConfigDto
  pub detailed_timing : Bool
  pub metric_prefix : String

pub record ScenarioConfigDto (F : Type 0) : Type 0 where
  pub kind : String
  pub vus : ℤ
  pub target_tps : ℤ
  pub max_vus : ℤ
  pub burst_buffer : ℤ
  pub stages : List StageConfigDto
  pub ramp_up : ℤ
  pub run_period : ℤ
  pub ramp_down : ℤ
  pub drain : ℤ
  pub drain_period : ℤ
  pub max_pretest_retries : Option ℤ
  pub min_ready_ratio : F
  pub startup_grace_period : ℤ
  pub vu_timeout : ℤ
  pub allow_unbounded_iterations : Bool
  pub watchdog_stall_threshold : ℤ
  pub watchdog_interval : ℤ
  pub params : List (String × String)
  pub strict : String
  pub interaction_delay : Option ThinkTimeConfigDto
  pub think_time : Option ThinkTimeConfigDto
  pub thresholds : List ThresholdConfigDto
  pub http : Option HttpConfigDto
  pub http_clients : List (String × Option HttpConfigDto)

pub record ConfigDto (F : Type 0) : Type 0 where
  pub version : String
  pub default_scenario : String
  pub scenarios : List (String × ScenarioConfigDto F)

-- A pointer's toModel keeps nil.
abbrev pub if_some : {A B : Type 0} → (A → B) → Option A → Option B
if_some f none = none
if_some f (some a) = some (f a)

abbrev pub each : {A B : Type 0} → (A → B) → List A → List B
each f [] = []
each f (a ∷ as') = f a ∷ each f as'

abbrev pub entries : {A B : Type 0} → (A → B) → List (String × A) → List (String × B)
entries f [] = []
entries f ((k, a) ∷ m) = (k, f a) ∷ entries f m

pub stage_model : StageConfigDto → StageConfig
stage_model d = record { target = d.target; duration = d.duration }

pub think_time_model : ThinkTimeConfigDto → ThinkTimeConfig
think_time_model d = record {
  kind = d.kind;
  duration = d.duration;
  min = d.min;
  max = d.max;
  mean = d.mean;
  std_dev = d.std_dev;
}

pub http_model : HttpConfigDto → HttpConfig
http_model d = record {
  base_url = d.base_url;
  timeout = d.timeout;
  headers = d.headers;
  tls = record { insecure_skip_verify = d.tls.insecure_skip_verify };
  pool = record {
    max_idle_conns = d.pool.max_idle_conns;
    max_idle_conns_per_host = d.pool.max_idle_conns_per_host;
    idle_conn_timeout = d.pool.idle_conn_timeout;
  };
  detailed_timing = d.detailed_timing;
  metric_prefix = d.metric_prefix;
}

module _ {F : Type 0} (ops : FloatOps F) where
  -- The parsed target is left at zero, for the validation to fill in.
  pub threshold_model : ThresholdConfigDto → ThresholdConfig F
  threshold_model d = record {
    metric = d.metric;
    stat = d.stat;
    operator = d.operator;
    target = d.target;
    on_no_data = d.on_no_data;
    abort_on_fail = d.abort_on_fail;
    delay_abort_eval = d.delay_abort_eval;
    target_duration = pos 0;
    target_float = ops.of_int (pos 0);
  }

  pub scenario_model : ScenarioConfigDto F → ScenarioConfig F
  unfolding stage_model think_time_model http_model threshold_model
  scenario_model d = record {
    kind = d.kind;
    vus = d.vus;
    target_tps = d.target_tps;
    max_vus = d.max_vus;
    burst_buffer = d.burst_buffer;
    stages = each stage_model d.stages;
    ramp_up = d.ramp_up;
    run_period = d.run_period;
    ramp_down = d.ramp_down;
    drain = if is_zero d.drain && not (is_zero d.drain_period) then d.drain_period else d.drain;
    max_pretest_retries = elim d.max_pretest_retries [ none ↦ pos 3 | some n ↦ n ];
    min_ready_ratio = d.min_ready_ratio;
    startup_grace_period = d.startup_grace_period;
    vu_timeout = d.vu_timeout;
    allow_unbounded_iterations = d.allow_unbounded_iterations;
    watchdog_stall_threshold = d.watchdog_stall_threshold;
    watchdog_interval = d.watchdog_interval;
    params = d.params;
    strict_mode = d.strict;
    interaction_delay = if_some think_time_model d.interaction_delay;
    think_time = if_some think_time_model d.think_time;
    thresholds = each threshold_model d.thresholds;
    http = if_some http_model d.http;
    http_clients = entries (if_some http_model) d.http_clients;
  }

  pub to_model : ConfigDto F → Config F
  unfolding scenario_model
  to_model d = record {
    version = d.version;
    default_scenario = d.default_scenario;
    scenarios = entries scenario_model d.scenarios;
  }

-- The word that a duration's decode hook is given, over time.ParseDuration.
pub decode_duration : {E : Type 0} → (String → Result E ℤ) → String → Result E ℤ
decode_duration parse_duration s = if is_empty s then ok (pos 0) else parse_duration s

-- ConfigError, with the path of the file if there is one, and ValidationError.
pub data LoadError (F E : Type 0) : Type 0 where
  parse_failed : Option String → E → LoadError F E
  unmarshal_failed : Option String → E → LoadError F E
  invalid : ValidationError F → LoadError F E

module _ {F E : Type 0} (ops : FloatOps F) (parsers : Parsers F)
    (validators : List (String × DelayValidatorFunc F)) where
  load_dto :
      Option String
      → Result E (Unit {0})
      → Result E (ConfigDto F)
      → Result (LoadError F E) (Config F)
  load_dto path (err e) dto = err (parse_failed path e)
  load_dto path (ok u) (err e) = err (unmarshal_failed path e)
  load_dto path (ok u) (ok dto) = elim (validate ops parsers validators (to_model ops dto)) [
    | err e ↦ err (invalid e)
    | ok cfg ↦ ok cfg
  ]

  -- What ReadConfig and Unmarshal return.
  pub load : Result E (Unit {0}) → Result E (ConfigDto F) → Result (LoadError F E) (Config F)
  unfolding load_dto
  load read dto = load_dto none read dto

  pub load_from_file :
      String → Result E (Unit {0}) → Result E (ConfigDto F) → Result (LoadError F E) (Config F)
  unfolding load_dto
  load_from_file path read dto = load_dto (some path) read dto
