-- ===== src/Engine/Context/Groups.antt =====
-- internal/engine/context.go: the construction of a context, and the groups that a hook opens. A group's
-- duration is observed under the name of its metric; the histogram itself is in Metric.Collector. The
-- children are those of one virtual user, which all its contexts share.
pub mod Transparent
use Prim.Native.String.{◌++◌ as str_append}
use vuhive.Prelude.{
  String, List, [], ◌∷◌, ◌++◌, Option, none, some, ℤ, pos, is_empty, lookup, insert, if◌then◌else◌,
}
use vuhive.Config.Model.{ScenarioConfig, HttpConfig}
use vuhive.Delay.{DelayGenerator}
use vuhive.Engine.Context.{context_delay}

-- The fields that no operation changes; G is the global state.
pub record Fixed (G : Type 0) : Type 0 where
  pub vuid : ℤ
  pub scenario_name : String
  pub params : List (String × String)
  pub http_cfg : Option HttpConfig
  pub global_state : G
  pub delay_gen : Option DelayGenerator

-- scenarioContext, over the type C of the embedded context. A zero HTTPConfig, and a nil map of clients,
-- are `none` and the empty list.
pub record ScenarioContext (C G : Type 0) : Type 0 where
  pub context : C
  pub iteration : ℤ
  pub group_path : String
  pub http_clients : List (String × HttpConfig)
  pub fixed : Fixed G

-- The copy of the clients, without those that are nil.
clients_of : List (String × Option HttpConfig) → List (String × HttpConfig)
clients_of [] = []
clients_of ((name, none) ∷ rest) = clients_of rest
clients_of ((name, some cfg) ∷ rest) = (name, cfg) ∷ clients_of rest

-- GroupMetricName
abbrev pub group_metric_name : String → String
group_metric_name path = str_append "vuhive.group." (str_append path ".duration")

-- A group's path, below the one of its context.
pub join_path : String → String → String
join_path path name = if is_empty path then name else str_append path (str_append "::" name)

abbrev pub Children : Type 0 → Type 0 → Type 0
Children C G = List (String × ScenarioContext C G)

module _ {C G : Type 0} where
  pub new_scenario_context :
      {F : Type 0} → C → ℤ → ℤ → ScenarioConfig F → String → G → ScenarioContext C G
  unfolding clients_of
  new_scenario_context ctx vuid iteration cfg scenario_name global_state = record {
    context = ctx;
    iteration = iteration;
    group_path = "";
    http_clients = clients_of cfg.http_clients;
    fixed = record {
      vuid = vuid;
      scenario_name = scenario_name;
      params = cfg.params;
      http_cfg = cfg.http;
      global_state = global_state;
      delay_gen = context_delay cfg;
    };
  }

  pub new_vu_scenario_context :
      {F : Type 0} → C → ℤ → ScenarioConfig F → String → G → ScenarioContext C G
  unfolding new_scenario_context
  new_vu_scenario_context ctx vuid cfg scenario_name global_state =
      new_scenario_context ctx vuid (pos 0) cfg scenario_name global_state

  pub prepare_iteration : C → ℤ → ScenarioContext C G → ScenarioContext C G
  prepare_iteration ctx iteration c = record c { context = ctx; iteration = iteration }

  -- The child of a path: a new one, or the old one with the context and the iteration of its parent.
  pub child_of : String → ScenarioContext C G → Option (ScenarioContext C G) → ScenarioContext C G
  child_of path c none = record {
    context = c.context;
    iteration = c.iteration;
    group_path = path;
    http_clients = [];
    fixed = c.fixed;
  }
  child_of path c (some old) = record old { context = c.context; iteration = c.iteration }

  pub enter_group : String → ScenarioContext C G → Children C G → ScenarioContext C G × Children C G
  unfolding child_of join_path
  enter_group name c children =
      let path = join_path c.group_path name in
      let child = child_of path c (lookup path children) in (child, insert path child children)

-- What a hook does with its groups: it opens one, with what its function does inside, and goes on.
pub data Groups : Type 0 where
  stop : Groups
  enter : String → Groups → Groups → Groups

-- A call of a group's function: its context, and the metric that observes its duration when it returns
-- or panics.
abbrev pub Visit : Type 0 → Type 0 → Type 0
Visit C G = ScenarioContext C G × String

module _ {C G : Type 0} where
  -- The calls in the order in which they end.
  pub run_groups : ScenarioContext C G → Groups → Children C G → List (Visit C G) × Children C G
  unfolding enter_group
  run_groups c stop children = ([], children)
  run_groups c (enter name inner rest) children =
      let (child, entered) = enter_group name c children in
      let (inside, left) = run_groups child inner entered in
      let (after, last) = run_groups c rest left in
      (inside ++ ((child, group_metric_name child.group_path) ∷ after), last)

  -- The iterations of one virtual user: each sets the context and the iteration, and runs its groups.
  pub run_iterations :
      ScenarioContext C G → List (C × ℤ × Groups) → Children C G → List (List (Visit C G))
  unfolding prepare_iteration
  run_iterations c [] children = []
  run_iterations c ((ctx, iteration, groups) ∷ rest) children =
      let c' = prepare_iteration ctx iteration c in
      let (visits, left) = run_groups c' groups children in visits ∷ run_iterations c' rest left
