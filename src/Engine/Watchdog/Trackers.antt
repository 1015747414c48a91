-- ===== src/Engine/Watchdog/Trackers.antt =====
-- internal/engine/watchdog.go: the tracker of one virtual user from its registration to its removal.
use vuhive.Prelude.{
  eq_self, ℕ, ◌≡◌, refl, ◌∙◌, ap, ℤ, pos, true, false, List, [], ◌∷◌, ◌++◌, ◌==◌, All,
}
use vuhive.Engine.Watchdog.{
  VuTracker, ExecutionWatchdog, register_vu, at_vu, begin, end, without_vu, unregister_vu,
}

-- No tracker of this user yet.
abbrev pub Untracked : ℕ → List VuTracker → Type 0
Untracked vuid ts = All (λ t. (t.vuid == vuid) ≡ false) ts

at_vu-append :
    (vuid : ℕ) (f : VuTracker → VuTracker) (ts : List VuTracker) (t : VuTracker)
    → Untracked vuid ts
    → t.vuid ≡ vuid
    → at_vu vuid f (ts ++ (t ∷ [])) ≡ ts ++ (f t ∷ [])
unfolding at_vu
at_vu-append vuid f [] t h e = simp (at_vu, e, eq_self vuid) refl
at_vu-append vuid f (u ∷ ts) t (no_u, h) e =
    let rec = at_vu-append vuid f ts t h e in simp (at_vu, no_u) (ap (λ l. u ∷ l) rec)

without_vu-append :
    (vuid : ℕ) (ts : List VuTracker) (t : VuTracker)
    → Untracked vuid ts
    → t.vuid ≡ vuid
    → without_vu vuid (ts ++ (t ∷ [])) ≡ ts
unfolding without_vu
without_vu-append vuid [] t h e = simp (without_vu, e, eq_self vuid) refl
without_vu-append vuid (u ∷ ts) t (no_u, h) e =
    let rec = without_vu-append vuid ts t h e in simp (without_vu, no_u) (ap (λ l. u ∷ l) rec)

-- The tracker of this user stands last, behind `ts`.
pub record Tracked (vuid : ℕ) (old ew : ExecutionWatchdog) : Type 0 where
  pub own : VuTracker
  pub last : ew.trackers ≡ old.trackers ++ (own ∷ [])
  pub same : own.vuid ≡ vuid
  pub counted : ew.stalled_iterations ≡ old.stalled_iterations

module _ (vuid : ℕ) (old : ExecutionWatchdog) where
  pub register_vu-Tracked : Tracked vuid old (register_vu vuid old)
  unfolding register_vu
  register_vu-Tracked = record {
    own = record {
      vuid = vuid;
      iteration = 0;
      start_nano = pos 0;
      active = false;
      stalled = false;
    };
    last = refl;
    same = refl;
    counted = refl;
  }

module _ (vuid : ℕ) (old : ExecutionWatchdog) (fresh : Untracked vuid old.trackers)
    {ew : ExecutionWatchdog} (w : Tracked vuid old ew) where
  pub begin-Tracked : (n : ℕ) (now : ℤ) → Tracked vuid old (begin vuid n now ew)
  unfolding begin
  begin-Tracked n now =
      let f : VuTracker → VuTracker =
        λ t. record t { iteration = n; start_nano = now; stalled = false; active = true } in
      record {
        own = f w.own;
        last = ap (at_vu vuid f) w.last ∙ at_vu-append vuid f old.trackers w.own fresh w.same;
        same = w.same;
        counted = w.counted;
      }

  pub end-Tracked : Tracked vuid old (end vuid ew)
  unfolding end
  end-Tracked =
      let f : VuTracker → VuTracker = λ t. record t { active = false } in
      record {
        own = f w.own;
        last = ap (at_vu vuid f) w.last ∙ at_vu-append vuid f old.trackers w.own fresh w.same;
        same = w.same;
        counted = w.counted;
      }

  pub unregister_vu-Tracked :
      ((unregister_vu vuid ew).trackers ≡ old.trackers)
      × ((unregister_vu vuid ew).stalled_iterations ≡ old.stalled_iterations)
  unfolding unregister_vu
  unregister_vu-Tracked = (
    ap (without_vu vuid) w.last ∙ without_vu-append vuid old.trackers w.own fresh w.same,
    w.counted,
  )
