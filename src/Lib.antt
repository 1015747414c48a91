-- ===== src/Lib.antt =====
-- vuhive is a load-testing library: a suite of scenarios runs under virtual users (VUs) by one of three
-- pacers, records metrics, evaluates its thresholds against them, and passes or fails. This library
-- models the parts that decide what runs and what the verdict is, and proves them correct.
--
-- A run goes through these parts. internal/runner/resolver.go (Runner.resolve) takes the flags, loads
-- the configuration and picks a scenario. internal/config/validate.go (Config) has checked that
-- configuration and filled in what it leaves out. internal/engine runs the scenario: the pacer of
-- ramping_vus.go (Engine.Ramping) starts and stops workers, each of which runs its PreTest hook under
-- supervisor.go (Engine.Supervisor), waits at the gate of quorum.go (Engine.Quorum) and then records
-- its iterations by iteration.go (Engine.Iterations). The counters and histograms live in
-- internal/metric (Metric). internal/sla/evaluator.go (Sla) reads them for the thresholds, and
-- internal/runner/runner.go and strict.go (Runner.conclude, Runner.run_suite) give the verdict.
-- internal/delay/delay.go (Delay) generates the delays between interactions. executor.go (Engine.Executor)
-- calls Setup, the pacer and Teardown, and MonitorAbortThresholds of abort.go (Engine.Abort) may cancel
-- the pacer. The hooks get a context of context.go (Engine.Context), and may draw from a data set of
-- pkg/vuhive/data (Data).
--
-- Which file models what:
--   Prelude and its children: Boolean tests, lists and texts over the native numbers, signed integers,
--     float64 as the parameter FloatOps, and results with an error.
--   Config.Decoding: dto.go and loader.go, from the decoded YAML to a validated configuration (load,
--     load_from_file; toModel is to_model and its companions), with Decoding.Loaded
--     over the parts in Decoding.Fields.
--   Config.Model: the types of internal/config/model.go and errors.go. Config.Stats, Config.Delays,
--     Config.Thresholds, Config.Scenario and Config.Validate: the functions of validate.go by name
--     (validateThreshold is validate_threshold, and so on). validateScenario writes the defaults
--     through a pointer; here it returns the changed scenario. Each has a child for what it proves:
--     Delays.Bounds, Thresholds.Sound, Thresholds.Kinds, Thresholds.Rules, Scenario.Valid (what a valid
--     scenario is), Scenario.Sound, Scenario.Rules, Scenario.Capacity and Validate.Whole.
--   Engine.Quorum: StartupQuorumGate and its methods. Quorum.System interleaves the workers: a report
--     is counted by one atomic step and acted on by a later one. Quorum.Invariant and Quorum.Settling
--     hold the invariant of its steps; Quorum.Bounds and Quorum.Decision the properties.
--   Engine.Ramping: RunRampingVUs. Its closure adjustWorkers is adjust_workers, on a Pool of the worker
--     list, vuidSeq and the closed stop channels; the select of a stage takes its events from a list.
--     Ramping.Counts counts the ids; Ramping.Workers and Ramping.Stages hold the properties.
--   Engine.Supervisor: runSupervisedPreTest, with Supervisor.Backoff and Supervisor.Retries.
--   Engine.Watchdog: the trackers and the check of watchdog.go, with Watchdog.Stalls and
--     Watchdog.Threshold.
--   Engine.Abort: MonitorAbortThresholds of abort.go, with Abort.Breaches.
--   Engine.Iterations: recordIterationResultFast and executeIteration, with Iterations.Counters.
--   Engine.Worker: the goroutine of a virtual user (runVUGoroutine, runRampingVUGoroutine and
--     runArrivalRateWorkerPool) as the list of what it does. Worker.Lifecycle has the automaton of its
--     life, Worker.Rounds its calls of RunVU, Worker.Watched what it leaves in Engine.Watchdog, whose
--     child Watchdog.Trackers follows one tracker.
--   Engine.Constant: RunConstantVUs around those goroutines, with Constant.Orderly (the order of a run).
--     Engine.Drain: drainWorkers.
--   Engine.Arrival: RunArrivalRate. The dispatcher is a list of commands; a step of the system is its
--     next command or a receipt by a worker. Arrival.Tokens holds the account of the tokens, and
--     Arrival.Buffer the size of the channel.
--   Engine.Executor: executor.go and pacer.go. The hooks and pacers are what they return, and execute
--     gives the calls made. Executor.Lifecycle and Executor.Pacers hold the properties.
--   Engine.Context: context.go and strict.go. Parameters and Sleep are in the module itself, with
--     Context.Unused; Context.Checks has the inline checks, over Metric.Collector, and Context.Groups
--     the contexts and groups, whose cached children Groups.Transparent compares with none.
--   Metric.Types, Metric.Registry, Metric.Keys and Metric.Collector: registry.go, collector.go,
--     counter.go, rate.go and the sums of aggregator.go. A handle is the entry of its key, which
--     GetOrCreate never replaces. Registry.Order, Collector.Entries, Collector.Sums, Collector.Totals,
--     Collector.Kinds and Collector.Histories hold the properties.
--   Metric.Histogram: histogram.go and MergedHistogramSnapshot, over the HdrHistogram library as the
--     parameter HdrOps; Histogram.Counted has the number of samples. Its merged_histogram_snapshot is
--     what store_reader of Metric.Collector takes for the snapshots.
--   Metric.Checks: CheckSummaries of aggregator.go, with Checks.Sums for the entries and
--     Checks.Tallied for the whole.
--   Sla: evaluator.go and result.go. Its MetricReader is the interface of the evaluator, which
--     Metric.Collector.store_reader fills. Sla.Verdict and Sla.Reasons hold the properties.
--   Runner: resolver.go, strict.go and the workflow of runner.go, with Runner.Resolved,
--     Runner.Registration and Runner.Verdict. Delay: delay.go, with Delay.Bounds.
--   Data: pkg/vuhive/data, the data sets (Next is Data.next), with Data.Queue for the shared queue,
--     Data.Selection for the other strategies and Data.Loading for CSV.
--   Sse: the decoder of pkg/vuhive/http/sse.go, on bytes (Next is Sse.next, and the loop of Events is
--     events; read_all cuts the bytes into what ReadString returns). Sse.Lines and Sse.Frames take the
--     lines of an event apart, Sse.Reading reads the lines of a body, and Sse.Decoding decodes it.
--   Report: BuildSummaryData of internal/runner/summary.go and the lookups of internal/report/summary.go,
--     with Report.Entries, Report.Found and Report.Lookups; Registry.Names has NamesByType.
--   The modules called Tests run the definitions at concrete inputs.
--
-- Bounds and fuel. Durations, counts and targets are integers; the sums of the counters and the backoff
-- of the supervisor wrap at 64 bits, as in the source, and elsewhere the values are far below that
-- bound. The loop of the supervisor runs on fuel, and max_pretest_retries + 1 is enough; the loop
-- over the events of a stream takes one step more than there are frames; every other loop is
-- structural. Float64 is any type with the operations of FloatOps, with no law assumed.
-- time.ParseDuration and strconv.ParseFloat are the parameter Parsers. Hooks, draws of the random
-- generator, timers and the interleaving of goroutines are inputs, so a theorem holds for all of them.
--
-- Not modelled: text rendering (messages, reports, logs), the YAML, CSV and JSON parsers, the flag parser,
-- the rate limiter and the HdrHistogram library, which are input, output or other packages; the HTTP,
-- Kafka and NATS clients but for the decoder of events, since they wrap their libraries; the facade
-- pkg/vuhive over internal/engine; the rendering of the reports; and the example programs.
pub mod Prelude
pub mod Metric
pub mod Sla
pub mod Config
pub mod Engine
pub mod Runner
pub mod Delay
pub mod Data
pub mod Sse
pub mod Report
