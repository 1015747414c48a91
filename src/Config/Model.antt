-- ===== src/Config/Model.antt =====
-- internal/config/model.go and errors.go: the configuration types. A Go map is the list of its
-- entries, in the order in which a `range` visits them; a nil pointer is `none`. Float64 is `F`.
use vuhive.Prelude.{String, ℤ, pos, List, Option, Bool, str_eq, ◌||◌}

abbrev pub scenario_type_constant_vus : String
scenario_type_constant_vus = "constant_vus"

abbrev pub scenario_type_arrival_rate : String
scenario_type_arrival_rate = "arrival_rate"

abbrev pub scenario_type_ramping_vus : String
scenario_type_ramping_vus = "ramping_vus"

pub record StageConfig : Type 0 where
  pub target : ℤ
  pub duration : ℤ

-- 30 * time.Second, in nanoseconds.
abbrev pub default_guard_deadline : ℤ
default_guard_deadline = pos 30_000_000_000

-- 500 * time.Millisecond
abbrev pub default_watchdog_interval : ℤ
default_watchdog_interval = pos 500_000_000

abbrev pub strict_mode_off : String
strict_mode_off = "off"

abbrev pub strict_mode_warn : String
strict_mode_warn = "warn"

abbrev pub strict_mode_fatal : String
strict_mode_fatal = "fatal"

abbrev pub is_strict_enabled : String → Bool
is_strict_enabled mode = str_eq mode strict_mode_warn || str_eq mode strict_mode_fatal

pub record TlsConfig : Type 0 where
  pub insecure_skip_verify : Bool

pub record HttpPoolConfig : Type 0 where
  pub max_idle_conns : ℤ
  pub max_idle_conns_per_host : ℤ
  pub idle_conn_timeout : ℤ

pub record HttpConfig : Type 0 where
  pub base_url : String
  pub timeout : ℤ
  pub headers : List (String × String)
  pub tls : TlsConfig
  pub pool : HttpPoolConfig
  pub detailed_timing : Bool
  pub metric_prefix : String

pub record ThinkTimeConfig : Type 0 where
  pub kind : String
  pub duration : ℤ
  pub min : ℤ
  pub max : ℤ
  pub mean : ℤ
  pub std_dev : ℤ

abbrev pub InteractionDelayConfig : Type 0
InteractionDelayConfig = ThinkTimeConfig

pub record ThresholdConfig (F : Type 0) : Type 0 where
  pub metric : String
  pub stat : String
  pub operator : String
  pub target : String
  pub on_no_data : String
  pub abort_on_fail : Bool
  pub delay_abort_eval : ℤ
  pub target_duration : ℤ
  pub target_float : F

pub record ScenarioConfig (F : Type 0) : Type 0 where
  pub kind : String
  pub vus : ℤ
  pub target_tps : ℤ
  pub max_vus : ℤ
  pub burst_buffer : ℤ
  pub stages : List StageConfig
  pub ramp_up : ℤ
  pub run_period : ℤ
  pub ramp_down : ℤ
  pub drain : ℤ
  pub max_pretest_retries : ℤ
  pub min_ready_ratio : F
  pub startup_grace_period : ℤ
  pub vu_timeout : ℤ
  pub allow_unbounded_iterations : Bool
  pub watchdog_stall_threshold : ℤ
  pub watchdog_interval : ℤ
  pub params : List (String × String)
  pub strict_mode : String
  pub interaction_delay : Option InteractionDelayConfig
  pub think_time : Option ThinkTimeConfig
  pub thresholds : List (ThresholdConfig F)
  pub http : Option HttpConfig
  pub http_clients : List (String × Option HttpConfig)

pub record Config (F : Type 0) : Type 0 where
  pub version : String
  pub default_scenario : String
  pub scenarios : List (String × ScenarioConfig F)

-- An argument of fmt.Sprintf. The rendering of a format is not modelled.
pub data Arg (F : Type 0) : Type 0 where
  str : String → Arg F
  int : ℤ → Arg F
  float : F → Arg F

pub data Message (F : Type 0) : Type 0 where
  text : String → Message F
  sprintf : String → List (Arg F) → Message F

pub record ValidationError (F : Type 0) : Type 0 where
  pub field : String
  pub message : Message F
