-- ===== src/Config/Decoding/Fields.antt =====
-- internal/config/dto.go: what the parts of a configuration are, next to the decoded ones.
use vuhive.Prelude.{false, is_empty, FloatOps, String, List, [], ◌∷◌, Option, none, some, ◌≡◌, refl}
use vuhive.Config.Thresholds.{Parsers}
use vuhive.Config.Thresholds.Rules.{SameRules}
use vuhive.Config.Model.{ThresholdConfig, StageConfig, ThinkTimeConfig, HttpConfig}
use vuhive.Config.Decoding.{
  ThresholdConfigDto, threshold_model, StageConfigDto, ThinkTimeConfigDto, HttpConfigDto, if_some,
  each, entries, stage_model, think_time_model, http_model,
}

-- One list next to another, of the same length and order.
pub ArePairs : {A B : Type 0} → (A → B → Type 0) → List A → List B → Type 0
ArePairs P [] [] = Unit {0}
ArePairs P [] (b ∷ bs) = ⊥
ArePairs P (a ∷ as') [] = ⊥
ArePairs P (a ∷ as') (b ∷ bs) = P a b × ArePairs P as' bs

abbrev pub IfSome : {A B : Type 0} → (A → B → Type 0) → Option A → Option B → Type 0
IfSome P none o = o ≡ none
IfSome {A} {B} P (some a) o = (b : B) × (o ≡ some b) × P a b

pub record IsStageOf (d : StageConfigDto) (c : StageConfig) : Type 0 where
  pub target : c.target ≡ d.target
  pub duration : c.duration ≡ d.duration

pub record IsThinkTimeOf (d : ThinkTimeConfigDto) (c : ThinkTimeConfig) : Type 0 where
  pub kind : c.kind ≡ d.kind
  pub duration : c.duration ≡ d.duration
  pub min : c.min ≡ d.min
  pub max : c.max ≡ d.max
  pub mean : c.mean ≡ d.mean
  pub std_dev : c.std_dev ≡ d.std_dev

pub record IsHttpOf (d : HttpConfigDto) (c : HttpConfig) : Type 0 where
  pub base_url : c.base_url ≡ d.base_url
  pub timeout : c.timeout ≡ d.timeout
  pub headers : c.headers ≡ d.headers
  pub insecure : c.tls.insecure_skip_verify ≡ d.tls.insecure_skip_verify
  pub idle : c.pool.max_idle_conns ≡ d.pool.max_idle_conns
  pub idle_per_host : c.pool.max_idle_conns_per_host ≡ d.pool.max_idle_conns_per_host
  pub idle_timeout : c.pool.idle_conn_timeout ≡ d.pool.idle_conn_timeout
  pub detailed_timing : c.detailed_timing ≡ d.detailed_timing
  pub metric_prefix : c.metric_prefix ≡ d.metric_prefix

-- A missing on_no_data and the parsed target are filled in by the validation.
pub record IsThresholdOf {F : Type 0} (d : ThresholdConfigDto) (c : ThresholdConfig F)
    : Type 0 where
  pub metric : c.metric ≡ d.metric
  pub stat : c.stat ≡ d.stat
  pub operator : c.operator ≡ d.operator
  pub target : c.target ≡ d.target
  pub on_no_data : is_empty d.on_no_data ≡ false → c.on_no_data ≡ d.on_no_data
  pub abort_on_fail : c.abort_on_fail ≡ d.abort_on_fail
  pub delay_abort_eval : c.delay_abort_eval ≡ d.delay_abort_eval

abbrev pub IsClientOf : String × Option HttpConfigDto → String × Option HttpConfig → Type 0
IsClientOf (name, d) (name', c) = (name' ≡ name) × IfSome IsHttpOf d c

stage_model-IsStageOf : (d : StageConfigDto) → IsStageOf d (stage_model d)
unfolding stage_model
stage_model-IsStageOf d = record { target = refl; duration = refl }

think_time_model-IsThinkTimeOf : (d : ThinkTimeConfigDto) → IsThinkTimeOf d (think_time_model d)
unfolding think_time_model
think_time_model-IsThinkTimeOf d = record {
  kind = refl;
  duration = refl;
  min = refl;
  max = refl;
  mean = refl;
  std_dev = refl;
}

http_model-IsHttpOf : (d : HttpConfigDto) → IsHttpOf d (http_model d)
unfolding http_model
http_model-IsHttpOf d = record {
  base_url = refl;
  timeout = refl;
  headers = refl;
  insecure = refl;
  idle = refl;
  idle_per_host = refl;
  idle_timeout = refl;
  detailed_timing = refl;
  metric_prefix = refl;
}

if_some-IfSome :
    {A B : Type 0} (P : A → B → Type 0) (f : A → B) (o : Option A)
    → ((a : A) → P a (f a))
    → IfSome P o (if_some f o)
if_some-IfSome P f none h = refl
if_some-IfSome P f (some a) h = (f a, refl, h a)

pub each-ArePairs : (ds : List StageConfigDto) → ArePairs IsStageOf ds (each stage_model ds)
unfolding ArePairs
each-ArePairs [] = tt
each-ArePairs (d ∷ ds) = (stage_model-IsStageOf d, each-ArePairs ds)

pub if_some-IsThinkTimeOf :
    (o : Option ThinkTimeConfigDto) → IfSome IsThinkTimeOf o (if_some think_time_model o)
if_some-IsThinkTimeOf o =
    if_some-IfSome IsThinkTimeOf think_time_model o think_time_model-IsThinkTimeOf

pub if_some-IsHttpOf : (o : Option HttpConfigDto) → IfSome IsHttpOf o (if_some http_model o)
if_some-IsHttpOf o = if_some-IfSome IsHttpOf http_model o http_model-IsHttpOf

pub entries-ArePairs :
    (m : List (String × Option HttpConfigDto))
    → ArePairs IsClientOf m (entries (if_some http_model) m)
unfolding ArePairs
entries-ArePairs [] = tt
entries-ArePairs ((name, o) ∷ m) = ((refl, if_some-IsHttpOf o), entries-ArePairs m)

module _ {F : Type 0} (ops : FloatOps F) (parsers : Parsers F) where
  pub SameRules-ArePairs :
      (ds : List ThresholdConfigDto) (outs : List (ThresholdConfig F))
      → SameRules parsers (each (threshold_model ops) ds) outs
      → ArePairs IsThresholdOf ds outs
  unfolding ArePairs threshold_model
  SameRules-ArePairs [] [] h = tt
  SameRules-ArePairs [] (out ∷ outs) h = h
  SameRules-ArePairs (d ∷ ds) [] h = h
  SameRules-ArePairs (d ∷ ds) (out ∷ outs) ((a, b, c, e, f, g, k), rest) = (
    record {
      metric = a;
      stat = b;
      operator = c;
      target = e;
      on_no_data = k;
      abort_on_fail = f;
      delay_abort_eval = g;
    },
    SameRules-ArePairs ds outs rest,
  )
