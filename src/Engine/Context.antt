-- ===== src/Engine/Context.antt =====
-- internal/engine/context.go and strict.go: the context of the hooks. Its maps are association lists; the
-- caches and the set of accessed parameters, which the contexts of one virtual user share, are threaded
-- through. Logging is left out but for the result that it depends on. strconv.Atoi and
-- time.ParseDuration are parameters.
pub mod Checks
pub mod Groups
pub mod Unused
mod Tests
use Prim.Native.Nat.{Ordering}
use Prim.Native.String.{◌++◌, compare}
use vuhive.Prelude.{
  ℕ, String, List, [], ◌∷◌, Option, none, some, Bool, true, false, ℤ, pos, is_empty, is_pos, lookup,
  one_of, sort_by, Result, ok, err, if◌then◌else◌,
}
use vuhive.Config.Model.{ScenarioConfig, InteractionDelayConfig}
use vuhive.Delay.{DelayGenerator, new_delay_generator}

-- The parameters, and accessedParams; `none` is nil.
pub record Params : Type 0 where
  pub declared : List (String × String)
  pub accessed : Option (List String)

-- newScenarioContext makes a set of its own; newVUScenarioContext takes what the goroutine found.
pub setup_params : {F : Type 0} → ScenarioConfig F → Params
setup_params cfg = record { declared = cfg.params; accessed = some [] }

pub vu_params : {F : Type 0} → ScenarioConfig F → Option (List String) → Params
vu_params cfg accessed_params = record { declared = cfg.params; accessed = accessed_params }

-- accessedParams.Store, unless the key is in.
pub mark : String → Option (List String) → Option (List String)
mark key none = none
mark key (some keys) = some (if one_of keys key then keys else key ∷ keys)

-- Param
pub param : String → Params → String × Params
param key p = elim (lookup key p.declared) [
  | none ↦ ("", p)
  | some v ↦ (v, record p { accessed = mark key p.accessed })
]

-- ParamInt and ParamDuration, over the parser; the Boolean says that the warning is logged.
parsed : {E : Type 0} → (String → Result E ℤ) → ℤ → String → ℤ × Bool
parsed parse default_value v =
    if is_empty v
    then (default_value, false)
    else elim (parse v) [ ok i ↦ (i, false) | err e ↦ (default_value, true) ]

pub param_int : {E : Type 0} → (String → Result E ℤ) → String → ℤ → Params → (ℤ × Bool) × Params
unfolding parsed
param_int atoi key default_value p = let (v, p') = param key p in (parsed atoi default_value v, p')

pub param_duration :
    {E : Type 0} → (String → Result E ℤ) → String → ℤ → Params → (ℤ × Bool) × Params
unfolding parsed
param_duration parse_duration key default_value p =
    let (v, p') = param key p in (parsed parse_duration default_value v, p')

-- sort.Strings
sort_strings : List String → List String
sort_strings = sort_by (λ s. s)

-- The loop over the parameters.
not_accessed : List String → List (String × String) → List String
not_accessed accessed [] = []
not_accessed accessed ((k, v) ∷ rest) =
    if one_of accessed k then not_accessed accessed rest else k ∷ not_accessed accessed rest

-- UnusedParams; nil is the empty list.
pub unused_params : Params → List String
unfolding sort_strings not_accessed
unused_params p = elim p.accessed [
  | none ↦ []
  | some accessed ↦ sort_strings (not_accessed accessed p.declared)
]

or_think_time :
    Option InteractionDelayConfig → Option InteractionDelayConfig → Option InteractionDelayConfig
or_think_time none think_time = think_time
or_think_time (some d) think_time = some d

-- The generator for Sleep, from the interaction delay or else the think time; an error is dropped.
pub context_delay : {F : Type 0} → ScenarioConfig F → Option DelayGenerator
unfolding or_think_time
context_delay cfg =
    elim (new_delay_generator (or_think_time cfg.interaction_delay cfg.think_time)) [
      | err e ↦ none
      | ok gen ↦ gen
    ]

-- The duration of Sleep: its argument, or else what the generator draws, if there is one.
pub sleep_duration : Option ℤ → Option ℤ → ℤ
sleep_duration (some d) drawn = d
sleep_duration none (some d) = d
sleep_duration none none = pos 0

-- How Sleep returns: whether the context is done at once, and whether it is done before the timer.
pub sleep : {E : Type 0} → ℤ → Option E → Option E → Option E
sleep duration done_now done_later = if is_pos duration then done_later else done_now
