-- ===== src/Config/Thresholds/Kinds.antt =====
-- internal/config/validate.go: the loop of validateScenario over the thresholds. Two thresholds on one
-- metric have one inferred kind.
use vuhive.Prelude.{
  some_inj, lookup-insert, ok_inj, subst, ℕ, suc, String, List, [], ◌∷◌, some, ◌≡◌, refl, inl, inr,
  sym, ◌∙◌, ap, str_eq, ok, fail_if, arith, Bool-cases, Option-cases, eq_iff, >>=-eq-ok, lookup,
  insert, All, not, length,
}
use vuhive.Config.Model.{ThresholdConfig}
use vuhive.Config.Stats.{inferred_metric_kind}
use vuhive.Config.Thresholds.{Parsers, validate_threshold, check_kind, validate_thresholds}
use vuhive.Config.Thresholds.Sound.{
  IsThresholdValid, validate_threshold-IsThresholdValid, validate_threshold-fixed,
}

module _ {F : Type 0} where
  abbrev pub kind : ThresholdConfig F → String
  kind th = inferred_metric_kind th.stat

  -- The map agrees with a threshold: it does not know the metric, or knows it by the same kind.
  abbrev pub Agrees : List (String × String) → ThresholdConfig F → Type 0
  Agrees kinds th = (k : String) → lookup th.metric kinds ≡ some k → k ≡ kind th

  -- Any two of the thresholds on one metric are of one kind.
  abbrev pub SameKinds : List (ThresholdConfig F) → Type 0
  SameKinds [] = Unit
  SameKinds (th ∷ ths) =
      All (λ other. th.metric ≡ other.metric → kind th ≡ kind other) ths × SameKinds ths

  check_kind-Agrees :
      (p : String) (i : ℕ) (kinds : List (String × String)) (th : ThresholdConfig F)
      → check_kind p i kinds th ≡ ok tt
      → Agrees kinds th
  unfolding check_kind
  check_kind-Agrees p i kinds th h k found =
      let g : fail_if (not (str_eq k (kind th))) _ ≡ ok tt = rw (found, check_kind) at h in
      ground (arith, eq_iff k (kind th))

  Agrees-check_kind :
      (p : String) (i : ℕ) (kinds : List (String × String)) (th : ThresholdConfig F)
      → Agrees kinds th
      → check_kind p i kinds th ≡ ok tt
  unfolding check_kind
  Agrees-check_kind p i kinds th h = elim (Option-cases (lookup th.metric kinds)) [
    | inl e ↦ rw (e, check_kind)
    | inr (k, e) ↦ rw (e, check_kind, (eq_iff k (kind th)).1 (h k e))
  ]

  -- What agrees with the map after an entry agrees with the entry and, off it, with the old map.
  Agrees-insert :
      (kinds : List (String × String)) (th other : ThresholdConfig F)
      → Agrees kinds th
      → Agrees (insert th.metric (kind th) kinds) other
      → Agrees kinds other × (th.metric ≡ other.metric → kind th ≡ kind other)
  Agrees-insert kinds th other h g = elim (Bool-cases (str_eq th.metric other.metric)) [
    | inl e ↦
        let same = (eq_iff th.metric other.metric).0 e in
        let mine : kind th ≡ kind other =
          g (kind th) (lookup-insert th.metric other.metric (kind th) kinds ∙ rw e) in
        (λ k found. h k (rw same found) ∙ mine, λ _. mine)
    | inr e ↦ (
      λ k found. g k (lookup-insert th.metric other.metric (kind th) kinds ∙ rw e found),
      λ same. absurd (cc (sym e ∙ (eq_iff th.metric other.metric).1 same)),
    )
  ]

  Agrees-insert-All :
      (kinds : List (String × String)) (th : ThresholdConfig F) (others : List (ThresholdConfig F))
      → Agrees kinds th
      → All (Agrees (insert th.metric (kind th) kinds)) others
      → All (Agrees kinds) others
        × All (λ other. th.metric ≡ other.metric → kind th ≡ kind other) others
  Agrees-insert-All kinds th [] h g = (tt, tt)
  Agrees-insert-All kinds th (other ∷ others) h g =
      let (a, b) = Agrees-insert kinds th other h g.0 in
      let (as', bs) = Agrees-insert-All kinds th others h g.1 in ((a, as'), (b, bs))

  Agrees-All-insert :
      (kinds : List (String × String)) (th : ThresholdConfig F) (others : List (ThresholdConfig F))
      → All (Agrees kinds) others
      → All (λ other. th.metric ≡ other.metric → kind th ≡ kind other) others
      → All (Agrees (insert th.metric (kind th) kinds)) others
  Agrees-All-insert kinds th [] h g = tt
  Agrees-All-insert kinds th (other ∷ others) h g = (
    λ k found. elim (Bool-cases (str_eq th.metric other.metric)) [
      | inl e ↦
          some_inj (sym found ∙ lookup-insert th.metric other.metric (kind th) kinds ∙ rw e)
          ∙ g.0 ((eq_iff th.metric other.metric).0 e)
      | inr e ↦ h.0 k (sym (lookup-insert th.metric other.metric (kind th) kinds ∙ rw e) ∙ found)
    ],
    Agrees-All-insert kinds th others h.1 g.1,
  )

  module _ (parsers : Parsers F) where
    pub record AreValid (kinds : List (String × String)) (ths : List (ThresholdConfig F))
        : Type 0 where
      pub each : All (IsThresholdValid parsers) ths
      pub agree : All (Agrees kinds) ths
      pub same : SameKinds ths

    -- Thresholds that validation returns are each well formed, and two of them on one metric are of
    -- one kind, which is also that of an entry for the metric in the map that the loop began with.
    pub validate_thresholds-AreValid :
        (p : String) (i : ℕ) (kinds : List (String × String)) (ths : List (ThresholdConfig F))
        {outs : List (ThresholdConfig F)}
        → validate_thresholds parsers p i kinds ths ≡ ok outs
        → AreValid kinds outs × (length outs ≡ length ths)
    unfolding validate_thresholds
    validate_thresholds-AreValid p i kinds [] {outs} h =
        subst (λ o. AreValid kinds o × (length o ≡ 0)) (ok_inj h)
          (record { each = tt; agree = tt; same = tt }, refl)
    validate_thresholds-AreValid p i kinds (th ∷ ths) {outs} h =
        let (out, first, h2) = >>=-eq-ok (validate_threshold parsers p i th) _ h in
        let (u, checked, h3) = >>=-eq-ok (check_kind p i kinds out) _ h2 in
        let (rest, later, h4) =
          >>=-eq-ok (validate_thresholds parsers p (suc i) (insert out.metric (kind out) kinds) ths)
            _ h3 in
        let agrees = check_kind-Agrees p i kinds out checked in
        let (tail, len) =
          validate_thresholds-AreValid p (suc i) (insert out.metric (kind out) kinds) ths later in
        let (below, pairs) = Agrees-insert-All kinds out rest agrees tail.agree in
        subst (λ o. AreValid kinds o × (length o ≡ suc (length ths))) (ok_inj h4)
          (
            record {
              each = ((validate_threshold-IsThresholdValid parsers p i th first).0, tail.each);
              agree = (agrees, below);
              same = (pairs, tail.same);
            },
            ap suc len,
          )

    pub validate_thresholds-fixed :
        (p : String) (i : ℕ) (kinds : List (String × String)) (ths : List (ThresholdConfig F))
        → AreValid kinds ths
        → validate_thresholds parsers p i kinds ths ≡ ok ths
    unfolding validate_thresholds
    validate_thresholds-fixed p i kinds [] v = refl
    validate_thresholds-fixed p i kinds (th ∷ ths) v = rw (
      validate_threshold-fixed parsers p i th v.each.0,
      Agrees-check_kind p i kinds th v.agree.0,
      validate_thresholds-fixed p (suc i) (insert th.metric (kind th) kinds) ths (record {
        each = v.each.1;
        agree = Agrees-All-insert kinds th ths v.agree.1 v.same.0;
        same = v.same.1;
      }),
    )
