-- ===== src/Engine/Abort/Breaches.antt =====
-- internal/engine/abort.go: when the monitor aborts, and what it reports.
use vuhive.Prelude.{
  false≢true, sym, ◌∙◌, subst, List, [], ◌∷◌, Option, none, some, Bool, true, false, ◌≡◌, refl, ◌⊎◌,
  inl, inr, ltb_ℤ, if◌then◌else◌, FloatOps, All, Bool-cases,
}
use vuhive.Config.Model.{ThresholdConfig}
use vuhive.Sla.{evaluate_threshold}
use vuhive.Sla.Verdict.{Meets, observe, evaluate_threshold-Meets}
use vuhive.Engine.Abort.{Breach, Tick, abort_thresholds, on_tick, watch, monitor_abort_thresholds}

-- A threshold is one of a list.
abbrev pub Among : {F : Type 0} → ThresholdConfig F → List (ThresholdConfig F) → Type 0
Among th [] = ⊥
Among th (k ∷ ks) = (th ≡ k) ⊎ Among th ks

module _ {F : Type 0} (ops : FloatOps F) where
  -- A threshold is in its warm-up at a tick, or met by its metrics.
  abbrev pub Quiet : Tick F → ThresholdConfig F → Type 0
  Quiet t th = (ltb_ℤ t.elapsed th.delay_abort_eval ≡ true) ⊎ Meets ops th (observe ops th t.reader)

  -- A breach at a tick: past its warm-up, abort_on_fail is set, and the evaluation failed.
  pub record IsBreach (t : Tick F) (b : Breach F) : Type 0 where
    pub asked : b.threshold.abort_on_fail ≡ true
    pub warm : ltb_ℤ t.elapsed b.threshold.delay_abort_eval ≡ false
    pub failed : ¬ Meets ops b.threshold (observe ops b.threshold t.reader)
    pub measured : b.actual ≡ (evaluate_threshold ops b.threshold t.reader).actual

  Asked : List (ThresholdConfig F) → Type 0
  Asked ths = All (λ th. th.abort_on_fail ≡ true) ths

  kept-Asked :
      (b : Bool) (th : ThresholdConfig F) (rest : List (ThresholdConfig F))
      → th.abort_on_fail ≡ b
      → Asked rest
      → Asked (if b then th ∷ rest else rest)
  unfolding Asked
  kept-Asked true th rest e h = (e, h)
  kept-Asked false th rest e h = h

  keep-Asked : (ths : List (ThresholdConfig F)) → Asked (abort_thresholds ths)
  unfolding Asked
  keep-Asked [] = tt
  keep-Asked (th ∷ ths) =
      kept-Asked th.abort_on_fail th (abort_thresholds ths) refl (keep-Asked ths)

  on_tick-cases :
      (t : Tick F) (ths : List (ThresholdConfig F))
      → Asked ths
      → ((on_tick ops t ths ≡ none) × All (Quiet t) ths)
        ⊎ ((b : Breach F) × (on_tick ops t ths ≡ some b) × IsBreach t b × Among b.threshold ths)
  unfolding on_tick Asked
  on_tick-cases t [] h = inl (refl, tt)
  on_tick-cases t (th ∷ ths) h =
      let (there, back) = evaluate_threshold-Meets ops th t.reader in
      elim (Bool-cases (ltb_ℤ t.elapsed th.delay_abort_eval)) [
        | inl early ↦ elim (on_tick-cases t ths h.1) [
          | inl (quiet, rest) ↦ inl (simp (on_tick, early) quiet, (inl early, rest))
          | inr (b, run, breach, m) ↦ inr (b, simp (on_tick, early) run, breach, inr m)
        ]
        | inr late ↦ elim (Bool-cases (evaluate_threshold ops th t.reader).passed) [
          | inl met ↦ elim (on_tick-cases t ths h.1) [
            | inl (quiet, rest) ↦ inl (simp (on_tick, late, met) quiet, (inr (there met), rest))
            | inr (b, run, breach, m) ↦ inr (b, simp (on_tick, late, met) run, breach, inr m)
          ]
          | inr failed ↦ inr (
            record { threshold = th; actual = (evaluate_threshold ops th t.reader).actual },
            simp (on_tick, late, failed) refl,
            record {
              asked = h.0;
              warm = late;
              failed = λ m. false≢true (sym failed ∙ back m);
              measured = refl;
            },
            inl refl,
          )
        ]
      ]

  -- The breach of the first tick that has one, every tick before it being quiet. What is quiet is left
  -- open, to compare the filtered thresholds with all of them.
  abbrev pub FirstBreach :
      (Tick F → Type 0) → List (ThresholdConfig F) → List (Tick F) → Breach F → Type 0
  FirstBreach Calm ths [] b = ⊥
  FirstBreach Calm ths (t ∷ ticks) b =
      (IsBreach t b × Among b.threshold ths) ⊎ (Calm t × FirstBreach Calm ths ticks b)

  -- Either every tick is quiet and nothing is reported, or the first breach is.
  abbrev pub IsWatchedBy :
      (Tick F → Type 0) → List (ThresholdConfig F) → List (Tick F) → Option (Breach F) → Type 0
  IsWatchedBy Calm ths ticks o =
      ((o ≡ none) × All Calm ticks) ⊎ ((b : Breach F) × (o ≡ some b) × FirstBreach Calm ths ticks b)

  -- A tick at which each threshold that may abort is quiet.
  abbrev pub Calm : List (ThresholdConfig F) → Tick F → Type 0
  Calm ths t = All (λ th. (th.abort_on_fail ≡ false) ⊎ Quiet t th) ths

  abbrev pub IsWatched : List (ThresholdConfig F) → List (Tick F) → Option (Breach F) → Type 0
  IsWatched ths = IsWatchedBy (Calm ths) ths

  watch-IsWatched :
      (ticks : List (Tick F)) (ths : List (ThresholdConfig F))
      → Asked ths
      → IsWatchedBy (λ t. All (Quiet t) ths) ths ticks (watch ops ticks ths)
  unfolding watch
  watch-IsWatched [] ths h = inl (refl, tt)
  watch-IsWatched (t ∷ ticks) ths h = elim (on_tick-cases t ths h) [
    | inr (b, run, breach, m) ↦ inr (b, simp (watch, run) refl, inl (breach, m))
    | inl (run, quiet) ↦ elim (watch-IsWatched ticks ths h) [
      | inl (none_later, rest) ↦ inl (simp (watch, run) none_later, (quiet, rest))
      | inr (b, later, first) ↦ inr (b, simp (watch, run) later, inr (quiet, first))
    ]
  ]

  -- From the filtered thresholds to all of them.
  Calm-all :
      (t : Tick F) (ths : List (ThresholdConfig F))
      → All (Quiet t) (abort_thresholds ths)
      → Calm ths t
  Calm-all t [] h = tt
  Calm-all t (th ∷ ths) h = elim (Bool-cases th.abort_on_fail) [
    | inl asked ↦
        let (first, rest) =
          subst
            (λ (b : Bool).
              All (Quiet t) (if b then th ∷ abort_thresholds ths else abort_thresholds ths))
            asked h in
        (inr first, Calm-all t ths rest)
    | inr free ↦ (
      inl free,
      Calm-all t ths (
          subst
            (λ (b : Bool).
              All (Quiet t) (if b then th ∷ abort_thresholds ths else abort_thresholds ths))
            free h),
    )
  ]

  Among-all :
      (k : ThresholdConfig F) (ths : List (ThresholdConfig F))
      → Among k (abort_thresholds ths)
      → Among k ths
  Among-all k [] h = h
  Among-all k (th ∷ ths) h = elim (Bool-cases th.abort_on_fail) [
    | inl asked ↦
        elim (subst
          (λ (b : Bool). Among k (if b then th ∷ abort_thresholds ths else abort_thresholds ths))
          asked h) [ inl e ↦ inl e | inr m ↦ inr (Among-all k ths m) ]
    | inr free ↦ inr (
        Among-all k ths (
          subst
            (λ (b : Bool). Among k (if b then th ∷ abort_thresholds ths else abort_thresholds ths))
            free h))
  ]

  all-Calm :
      (ths : List (ThresholdConfig F)) (ticks : List (Tick F))
      → All (λ t. All (Quiet t) (abort_thresholds ths)) ticks
      → All (Calm ths) ticks
  all-Calm ths [] h = tt
  all-Calm ths (t ∷ ticks) h = (Calm-all t ths h.0, all-Calm ths ticks h.1)

  first_all :
      (ths : List (ThresholdConfig F)) (ticks : List (Tick F)) (b : Breach F)
      → FirstBreach (λ t. All (Quiet t) (abort_thresholds ths)) (abort_thresholds ths) ticks b
      → FirstBreach (Calm ths) ths ticks b
  first_all ths [] b h = h
  first_all ths (t ∷ ticks) b (inl (breach, m)) = inl (breach, Among-all b.threshold ths m)
  first_all ths (t ∷ ticks) b (inr (quiet, later)) =
      inr (Calm-all t ths quiet, first_all ths ticks b later)

  nothing_watched : (ticks : List (Tick F)) → All (λ t. All (Quiet t) []) ticks
  nothing_watched [] = tt
  nothing_watched (t ∷ ticks) = (tt, nothing_watched ticks)

  monitored :
      (ticks : List (Tick F)) (asked : List (ThresholdConfig F))
      → Asked asked
      → IsWatchedBy
          (λ t. All (Quiet t) asked)
          asked
          ticks
          (elim asked [ [] ↦ none | th ∷ rest ↦ watch ops ticks (th ∷ rest) ])
  monitored ticks [] h = inl (refl, nothing_watched ticks)
  monitored ticks (th ∷ rest) h = watch-IsWatched ticks (th ∷ rest) h

  -- For any thresholds and any sequence of ticks (each at any time, with any metrics): if at every tick
  -- every threshold of the scenario with abort_on_fail is still within its delay_abort_eval or met by
  -- the metrics, the monitor reports nothing; otherwise it reports a threshold of the scenario that has
  -- abort_on_fail, is past its delay and is not met, with what the evaluation shows as measured, at the
  -- first tick that has one.
  pub monitor_abort_thresholds-IsWatched :
      (ticks : List (Tick F)) (ths : List (ThresholdConfig F))
      → IsWatched ths ticks (monitor_abort_thresholds ops ticks ths)
  unfolding monitor_abort_thresholds
  monitor_abort_thresholds-IsWatched ticks ths =
      elim (monitored ticks (abort_thresholds ths) (keep-Asked ths)) [
        | inl (e, quiet) ↦ inl (e, all-Calm ths ticks quiet)
        | inr (b, e, first) ↦ inr (b, e, first_all ths ticks b first)
      ]
