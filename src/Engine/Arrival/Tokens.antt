-- ===== src/Engine/Arrival/Tokens.antt =====
-- internal/engine/arrival_rate.go: every token is received once, waits in the channel, or is dropped.
use vuhive.Prelude.{
  false≢true, ℕ, zero, suc, ◌+◌, ◌≤◌, ◌<◌, ◌≡◌, refl, sym, ◌∙◌, ap, subst, Bool, true, false, List,
  [], ◌∷◌, ◌++◌, Option, some, Option-cases, Bool-cases, inl, inr, if◌then◌else◌, length,
  length-append, All, ltb, arith, some_inj, is_pos, pos, FloatOps,
}
use mathlib.Core.List.{append_assoc}
use vuhive.Config.Model.{ScenarioConfig}
use vuhive.Engine.Arrival.{
  Command, cancel_run, dispatch, close_tokens, drain_workers, Waits, steady_loop, dispatch_all,
  run_arrival_rate, Channel, initial, dispatch_token, obey, Step, command, receive, Reach, start,
  next,
}

-- The tokens of a list of receipts.
abbrev pub tokens : List (ℕ × ℕ) → List ℕ
tokens [] = []
tokens ((vuid, token) ∷ rest) = token ∷ tokens rest

-- Every number stands before the greater ones, and none stands twice.
abbrev pub IsIncreasing : List ℕ → Type 0
IsIncreasing [] = Unit {0}
IsIncreasing (n ∷ ns) = All (λ m. n < m) ns × IsIncreasing ns

-- The dispatches of a program.
abbrev pub dispatches : List Command → ℕ
dispatches [] = 0
dispatches (dispatch ∷ cs) = suc (dispatches cs)
dispatches (cancel_run ∷ cs) = dispatches cs
dispatches (close_tokens ∷ cs) = dispatches cs
dispatches (drain_workers ∷ cs) = dispatches cs

-- No dispatch follows the close.
abbrev ClosesLast : List Command → Type 0
ClosesLast [] = Unit {0}
ClosesLast (close_tokens ∷ cs) = (dispatches cs ≡ 0) × ClosesLast cs
ClosesLast (dispatch ∷ cs) = ClosesLast cs
ClosesLast (cancel_run ∷ cs) = ClosesLast cs
ClosesLast (drain_workers ∷ cs) = ClosesLast cs

-- The tokens that were not dropped, oldest first.
abbrev pub alive : Channel → List ℕ
alive s = tokens s.received ++ s.token_ch

pub record IsAccounted (capacity total : ℕ) (s : Channel) : Type 0 where
  -- Each token is received or waiting at most once, and in the order of the dispatch.
  pub increasing : IsIncreasing (alive s)
  pub numbered : All (λ n. n < s.iter_seq) (alive s)
  pub conserved : length s.received + length s.token_ch + s.dropped ≡ s.iter_seq
  pub bounded : length s.token_ch ≤ capacity
  pub planned : s.iter_seq + dispatches s.commands ≡ total

record Inv (capacity total : ℕ) (s : Channel) : Type 0 where
  accounted : IsAccounted capacity total s
  closes_last : ClosesLast s.commands
  -- After the close nothing is left to dispatch.
  sealed : s.closed ≡ true → dispatches s.commands ≡ 0

tokens-append : (xs ys : List (ℕ × ℕ)) → tokens (xs ++ ys) ≡ tokens xs ++ tokens ys
tokens-append [] ys = refl
tokens-append ((v, t) ∷ xs) ys = ap (λ l. t ∷ l) (tokens-append xs ys)

All-snoc :
    (n : ℕ) (k : ℕ) (xs : List ℕ) → All (λ m. m < k) xs → n < k → All (λ m. m < k) (xs ++ (n ∷ []))
All-snoc n k [] h e = (e, tt)
All-snoc n k (x ∷ xs) (h, hs) e = (h, All-snoc n k xs hs e)

All-later : (k : ℕ) (xs : List ℕ) → All (λ m. m < k) xs → All (λ m. m < suc k) xs
All-later k [] h = tt
All-later k (x ∷ xs) (h, hs) = (omega arith, All-later k xs hs)

above_snoc :
    (x k : ℕ) (xs : List ℕ) → All (λ m. x < m) xs → x < k → All (λ m. x < m) (xs ++ (k ∷ []))
above_snoc x k [] h e = (e, tt)
above_snoc x k (y ∷ xs) (h, hs) e = (h, above_snoc x k xs hs e)

IsIncreasing-snoc :
    (k : ℕ) (xs : List ℕ) → IsIncreasing xs → All (λ m. m < k) xs → IsIncreasing (xs ++ (k ∷ []))
IsIncreasing-snoc k [] h e = (tt, tt)
IsIncreasing-snoc k (x ∷ xs) (above, h) (e, es) =
    (above_snoc x k xs above e, IsIncreasing-snoc k xs h es)

-- The new token comes last.
alive_lem :
    (s : Channel)
    → tokens s.received ++ (s.token_ch ++ (s.iter_seq ∷ [])) ≡ alive s ++ (s.iter_seq ∷ [])
alive_lem s = sym (append_assoc (tokens s.received) s.token_ch (s.iter_seq ∷ []))

-- A receipt moves the oldest token.
moved_lem :
    (xs : List (ℕ × ℕ)) (vuid token : ℕ) (rest : List ℕ)
    → tokens (xs ++ ((vuid, token) ∷ [])) ++ rest ≡ tokens xs ++ (token ∷ rest)
moved_lem xs vuid token rest =
    ap (λ l. l ++ rest) (tokens-append xs ((vuid, token) ∷ []))
    ∙ append_assoc (tokens xs) (token ∷ []) rest

module _ (capacity total : ℕ) where
  abbrev Obeyed : Command → Channel → Type 0
  Obeyed c s = (t : Channel) × (obey capacity c s ≡ some t) × Inv capacity total t

  -- A command that neither dispatches nor closes.
  other_lem :
      (s : Channel) (rest : List Command) (cancelled : Bool)
      → Inv capacity total s
      → dispatches s.commands ≡ dispatches rest
      → ClosesLast rest
      → Inv capacity total (record s { commands = rest; cancelled = cancelled })
  other_lem s rest cancelled inv same last = record {
    accounted = record {
      increasing = inv.accounted.increasing;
      numbered = inv.accounted.numbered;
      conserved = inv.accounted.conserved;
      bounded = inv.accounted.bounded;
      planned = omega (arith, inv.accounted.planned, same);
    };
    closes_last = last;
    sealed = λ h. sym same ∙ inv.sealed h;
  }

  dispatched_lem :
      (s : Channel) (rest : List Command)
      → Inv capacity total s
      → dispatches s.commands ≡ suc (dispatches rest)
      → ClosesLast rest
      → s.closed ≡ false
      → Obeyed dispatch (record s { commands = rest })
  unfolding obey dispatch_token
  dispatched_lem s rest inv same last opened =
      elim (Bool-cases (ltb (length s.token_ch) capacity)) [
        | inl room ↦ (
          record s {
            commands = rest;
            iter_seq = suc s.iter_seq;
            token_ch = s.token_ch ++ (s.iter_seq ∷ []);
          },
          simp (obey, dispatch_token, opened, room) refl,
          record {
            accounted = record {
              increasing = subst IsIncreasing (sym (alive_lem s)) (
                  IsIncreasing-snoc s.iter_seq (alive s) inv.accounted.increasing
                    inv.accounted.numbered);
              numbered = subst (All (λ n. n < suc s.iter_seq)) (sym (alive_lem s)) (
                  All-snoc s.iter_seq (suc s.iter_seq) (alive s)
                    (All-later s.iter_seq (alive s) inv.accounted.numbered) (omega arith));
              conserved =
                  omega (
                    arith,
                    inv.accounted.conserved,
                    length-append {0} s.token_ch (s.iter_seq ∷ []),
                  );
              bounded = ground (arith, length-append s.token_ch (s.iter_seq ∷ []));
              planned = omega (arith, inv.accounted.planned, same);
            };
            closes_last = last;
            sealed = λ h. absurd (false≢true (sym opened ∙ h));
          },
        )
        | inr full ↦ (
          record s { commands = rest; iter_seq = suc s.iter_seq; dropped = suc s.dropped },
          simp (obey, dispatch_token, opened, full) refl,
          record {
            accounted = record {
              increasing = inv.accounted.increasing;
              numbered = All-later s.iter_seq (alive s) inv.accounted.numbered;
              conserved = omega (arith, inv.accounted.conserved);
              bounded = inv.accounted.bounded;
              planned = omega (arith, inv.accounted.planned, same);
            };
            closes_last = last;
            sealed = λ h. absurd (false≢true (sym opened ∙ h));
          },
        )
      ]

  obey-Inv :
      (c : Command) (s : Channel) (rest : List Command)
      → Inv capacity total s
      → s.commands ≡ c ∷ rest
      → Obeyed c (record s { commands = rest })
  unfolding obey
  obey-Inv cancel_run s rest inv e = (
    record s { commands = rest; cancelled = true },
    refl,
    other_lem s rest true inv (ap dispatches e) (subst ClosesLast e inv.closes_last),
  )
  obey-Inv drain_workers s rest inv e = (
    record s { commands = rest },
    refl,
    other_lem s rest s.cancelled inv (ap dispatches e) (subst ClosesLast e inv.closes_last),
  )
  obey-Inv close_tokens s rest inv e =
      let (none_left, last) = subst ClosesLast e inv.closes_last in
      (
        record s { commands = rest; closed = true },
        refl,
        record {
          accounted = record {
            increasing = inv.accounted.increasing;
            numbered = inv.accounted.numbered;
            conserved = inv.accounted.conserved;
            bounded = inv.accounted.bounded;
            planned = omega (arith, inv.accounted.planned, ap dispatches e);
          };
          closes_last = last;
          sealed = λ h. none_left;
        },
      )
  obey-Inv dispatch s rest inv e =
      dispatched_lem s rest inv (ap dispatches e) (subst ClosesLast e inv.closes_last)
        (elim (Bool-cases s.closed) [
          | inl shut ↦ absurd (omega (arith, inv.sealed shut, ap dispatches e))
          | inr opened ↦ opened
        ])

  receive-Inv :
      (s : Channel) (vuid token : ℕ) (rest : List ℕ)
      → s.token_ch ≡ token ∷ rest
      → Inv capacity total s
      → Inv capacity total
          (record s { token_ch = rest; received = s.received ++ ((vuid, token) ∷ []) })
  receive-Inv s vuid token rest e inv =
      let same : tokens (s.received ++ ((vuid, token) ∷ [])) ++ rest ≡ alive s =
        moved_lem s.received vuid token rest ∙ ap (λ l. tokens s.received ++ l) (sym e) in
      let long : length s.token_ch ≡ suc (length rest) = ap length e in
      record {
        accounted = record {
          increasing = subst IsIncreasing (sym same) inv.accounted.increasing;
          numbered = subst (All (λ n. n < s.iter_seq)) (sym same) inv.accounted.numbered;
          conserved =
              omega
                (arith, inv.accounted.conserved, length-append {0} s.received ((vuid, token) ∷ []));
          bounded = omega (arith, inv.accounted.bounded);
          planned = inv.accounted.planned;
        };
        closes_last = inv.closes_last;
        sealed = inv.sealed;
      }

  Step-Inv : {s t : Channel} → Step capacity s t → Inv capacity total s → Inv capacity total t
  Step-Inv (command s t c rest e run) inv =
      let (u, obeyed, kept) = obey-Inv c s rest inv e in
      subst (Inv capacity total) (some_inj (sym obeyed ∙ run)) kept
  Step-Inv (receive s vuid token rest e) inv = receive-Inv s vuid token rest e inv

  reach-Inv : {s t : Channel} → Reach capacity s t → Inv capacity total s → Inv capacity total t
  reach-Inv start inv = inv
  reach-Inv (next r m) inv = Step-Inv m (reach-Inv r inv)

steady_loop-ClosesLast : (permits : ℕ) → ClosesLast (steady_loop permits)
unfolding steady_loop
steady_loop-ClosesLast zero = (refl, tt)
steady_loop-ClosesLast (suc permits) = steady_loop-ClosesLast permits

-- What holds in both branches.
either : {A : Type 0} (P : A → Type 0) (b : Bool) {x y : A} → P x → P y → P (if b then x else y)
either P true p q = p
either P false p q = q

dispatch_all-ClosesLast :
    {F Q : Type 0} (cfg : ScenarioConfig F) (w : Waits Q) → ClosesLast (dispatch_all cfg w)
unfolding dispatch_all
dispatch_all-ClosesLast cfg w =
    either ClosesLast (is_pos cfg.ramp_up)
      (either ClosesLast w.cut_before_midpoint (refl, tt)
        (either ClosesLast w.cut_before_end (refl, tt) (steady_loop-ClosesLast w.permits)))
      (steady_loop-ClosesLast w.permits)

run_arrival_rate-ClosesLast :
    {F Q : Type 0} (ops : FloatOps F) (cfg : ScenarioConfig F) (w : Waits Q)
    → ClosesLast (run_arrival_rate ops cfg w).0
unfolding run_arrival_rate
run_arrival_rate-ClosesLast {Q = Q} ops cfg w =
    let plan = dispatch_all-ClosesLast cfg w in
    either (λ (r : List Command × Option Q). ClosesLast r.0)
      (ops.lt (ops.of_int (pos 0)) cfg.min_ready_ratio)
      (elim (Option-cases w.quorum) [
        | inl fine ↦ rw fine plan
        | inr (e, failed) ↦ rw failed (refl, tt)
      ])
      plan

initial-Inv :
    (capacity : ℕ) (cs : List Command) → ClosesLast cs → Inv capacity (dispatches cs) (initial cs)
unfolding initial
initial-Inv capacity cs last = record {
  accounted = record {
    increasing = tt;
    numbered = tt;
    conserved = refl;
    bounded = omega arith;
    planned = omega arith;
  };
  closes_last = last;
  sealed = λ h. absurd (false≢true h);
}

-- For any scenario, waits and capacity of the channel, in every state that is reached by the commands
-- of the dispatcher and the receipts of the workers in any order: each dispatched token is received,
-- waits in the channel, or is counted as dropped, and only one of these; no token is received twice, by
-- whichever workers, and the tokens are received in the order of their numbers; the channel holds at
-- most its capacity; the numbers given so far and the dispatches to come are together those that
-- RunArrivalRate makes; and the next command of the dispatcher can always be run, so that no token is
-- ever sent on the closed channel.
pub run_arrival_rate-IsAccounted :
    {F Q : Type 0} (ops : FloatOps F) (cfg : ScenarioConfig F) (w : Waits Q) (capacity : ℕ)
    {s : Channel}
    → Reach capacity (initial (run_arrival_rate ops cfg w).0) s
    → IsAccounted capacity (dispatches (run_arrival_rate ops cfg w).0) s
      × ((c : Command) (rest : List Command)
          → s.commands ≡ c ∷ rest
          → (t : Channel) × (obey capacity c (record s { commands = rest }) ≡ some t))
run_arrival_rate-IsAccounted ops cfg w capacity r =
    let cs : List Command = (run_arrival_rate ops cfg w).0 in
    let inv =
      reach-Inv capacity (dispatches cs) r
        (initial-Inv capacity cs (run_arrival_rate-ClosesLast ops cfg w)) in
    (
      inv.accounted,
      λ c rest e.
          let (t, obeyed, kept) = obey-Inv capacity (dispatches cs) c _ rest inv e in (t, obeyed),
    )
