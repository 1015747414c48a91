-- ===== src/Engine/Context/Unused.antt =====
-- internal/engine/strict.go and context.go: the parameters that were never asked for.
use vuhive.Prelude.{
  String, List, [], ◌∷◌, Option, none, some, is_some, Bool, true, false, ◌&&◌, ◌||◌, not, ℤ, ◌≡◌,
  refl, sym, ap, ◌∙◌, subst, lookup, one_of, one_of-has, str_eq_sym, has-sort_by, sort_by,
  sort_by-nil, All, ◌↔◌, Result, if◌then◌else◌, str_eq, eq_iff, arith, Bool-cases, Option-cases,
  inl, inr,
}
use vuhive.Config.Model.{ScenarioConfig}
use vuhive.Engine.Context.{
  Params, setup_params, vu_params, mark, param, param_int, param_duration, sort_strings,
  not_accessed, unused_params,
}

-- A call of Param, ParamInt or ParamDuration.
pub data Access : Type 0 where
  by_param : String → Access
  by_param_int : String → ℤ → Access
  by_param_duration : String → ℤ → Access

abbrev pub key_of : Access → String
key_of (by_param k) = k
key_of (by_param_int k d) = k
key_of (by_param_duration k d) = k

abbrev pub asked : List Access → List String
asked [] = []
asked (a ∷ as') = key_of a ∷ asked as'

module _ {E : Type 0} (atoi parse_duration : String → Result E ℤ) where
  unfoldable pub access : Access → Params → Params
  access (by_param k) p = (param k p).1
  access (by_param_int k d) p = (param_int atoi k d p).1
  access (by_param_duration k d) p = (param_duration parse_duration k d p).1

  unfoldable pub access_all : List Access → Params → Params
  access_all [] p = p
  access_all (a ∷ as') p = access_all as' (access a p)

-- What is declared.
abbrev pub declares : List (String × String) → String → Bool
declares d k = is_some (lookup k d)

not_accessed_lem :
    (s : List String) (d : List (String × String)) (k : String)
    → one_of (not_accessed s d) k ≡ (declares d k && not (one_of s k))
unfolding not_accessed
not_accessed_lem s [] k = refl
not_accessed_lem s ((j, v) ∷ d) k =
    let rec = not_accessed_lem s d k in
    elim (Bool-cases (str_eq j k)) [
      | inl e ↦
          let same : one_of s j ≡ one_of s k = ap (one_of s) ((eq_iff j k).0 e) in
          ground (arith, rec, same, str_eq_sym j k)
      | inr e ↦ ground (arith, rec, str_eq_sym j k)
    ]

sort_strings_lem : (l : List String) (k : String) → one_of (sort_strings l) k ≡ one_of l k
unfolding sort_strings
sort_strings_lem l k =
    one_of-has (sort_strings l) k ∙ has-sort_by (λ s. s) (str_eq k) l ∙ sym (one_of-has l k)

-- The set holds exactly those declared keys that were asked for.
abbrev Tracks : List (String × String) → (String → Bool) → Option (List String) → Type 0
Tracks d p none = ⊥
Tracks d p (some s) = (k : String) → one_of s k ≡ (declares d k && p k)

-- One key more.
abbrev also : String → (String → Bool) → String → Bool
also key p k = if str_eq k key then true else p k

store_lem :
    (d : List (String × String)) (key : String) (s : List String) (p : String → Bool)
    → declares d key ≡ true
    → ((k : String) → one_of s k ≡ (declares d k && p k))
    → (k : String) → one_of (if one_of s key then s else key ∷ s) k ≡ (declares d k && also key p k)
store_lem d key s p known h k = elim (Bool-cases (str_eq k key)) [
  | inl e ↦
      let same : declares d k ≡ declares d key = ap (declares d) ((eq_iff k key).0 e) in
      let had : one_of s k ≡ one_of s key = ap (one_of s) ((eq_iff k key).0 e) in
      ground (arith, h k, same, had)
  | inr e ↦ ground (arith, h k)
]

mark-Tracks :
    (d : List (String × String)) (key : String) (p : String → Bool) (s : Option (List String))
    → declares d key ≡ true
    → Tracks d p s
    → Tracks d (also key p) (mark key s)
unfolding mark
mark-Tracks d key p none known h = h
mark-Tracks d key p (some s) known h = λ k. store_lem d key s p known h k

ignored-Tracks :
    (d : List (String × String)) (key : String) (p : String → Bool) (s : Option (List String))
    → declares d key ≡ false
    → Tracks d p s
    → Tracks d (also key p) s
ignored-Tracks d key p none missing h = h
ignored-Tracks d key p (some s) missing h = λ k. elim (Bool-cases (str_eq k key)) [
  | inl e ↦
      let same : declares d k ≡ declares d key = ap (declares d) ((eq_iff k key).0 e) in
      ground (arith, h k, same)
  | inr e ↦ ground (arith, h k)
]

abbrev Follows : (String → Bool) → Params → Params → Type 0
Follows p before after =
    Tracks before.declared p after.accessed × (after.declared ≡ before.declared)

param-Follows :
    (key : String) (q : Params) (p : String → Bool)
    → Tracks q.declared p q.accessed
    → Follows (also key p) q (param key q).1
unfolding param
param-Follows key q p h = elim (Option-cases (lookup key q.declared)) [
  | inr (v, known) ↦
      simp (param, known) (mark-Tracks q.declared key p q.accessed (ap is_some known) h, refl)
  | inl missing ↦
      simp (param, missing)
        (ignored-Tracks q.declared key p q.accessed (ap is_some missing) h, refl)
]

param_untracked : (key : String) (q : Params) → q.accessed ≡ none → (param key q).1.accessed ≡ none
unfolding param mark
param_untracked key q h = elim (Option-cases (lookup key q.declared)) [
  | inr (v, known) ↦ simp (param, mark, known, h) refl
  | inl missing ↦ simp (param, missing) h
]

or_false : (b : Bool) → (b || false) ≡ b
or_false true = refl
or_false false = refl

twice : (a b : Bool) → (a && not (a && b)) ≡ (a && not b)
twice true b = refl
twice false b = refl

report_lem :
    (d : List (String × String)) (p : String → Bool) (s : Option (List String)) (key : String)
    → Tracks d p s
    → one_of (unused_params (record { declared = d; accessed = s })) key
      ≡ (declares d key && not (p key))
unfolding unused_params
report_lem d p none key h = absurd h
report_lem d p (some s) key h =
    sort_strings_lem (not_accessed s d) key
    ∙ not_accessed_lem s d key
    ∙ ap (λ b. declares d key && not b) (h key)
    ∙ twice (declares d key) (p key)

silent_lem : (q : Params) → q.accessed ≡ none → unused_params q ≡ []
unfolding unused_params
silent_lem q h = simp (unused_params, h) refl

Tracks-ext :
    (d : List (String × String)) (p q : String → Bool) (s : Option (List String))
    → ((k : String) → p k ≡ q k)
    → Tracks d p s
    → Tracks d q s
Tracks-ext d p q none same h = h
Tracks-ext d p q (some s) same h = λ k. h k ∙ ap (λ b. declares d k && b) (same k)

module _ {E : Type 0} (atoi parse_duration : String → Result E ℤ) where
  access-param : (a : Access) (q : Params) → access atoi parse_duration a q ≡ (param (key_of a) q).1
  unfolding access param_int param_duration
  access-param (by_param k) q = refl
  access-param (by_param_int k d) q = refl
  access-param (by_param_duration k d) q = refl

  access_all-Follows :
      (calls : List Access) (q : Params) (p : String → Bool)
      → Tracks q.declared p q.accessed
      → Follows (λ k. one_of (asked calls) k || p k) q (access_all atoi parse_duration calls q)
  unfolding access_all
  access_all-Follows [] q p h =
      (Tracks-ext q.declared p (λ k. false || p k) q.accessed (λ k. refl) h, refl)
  access_all-Follows (a ∷ calls) q p h =
      let next : Params = access atoi parse_duration a q in
      let (tracks, same) =
        subst (Follows (also (key_of a) p) q) (sym (access-param a q))
          (param-Follows (key_of a) q p h) in
      let (tracks', same') =
        access_all-Follows calls next (also (key_of a) p)
          (subst (λ d. Tracks d (also (key_of a) p) next.accessed) (sym same) tracks) in
      let whole : List (String × String) → Type 0 = λ d.
        Tracks d (λ k. one_of (asked calls) k || also (key_of a) p k)
          (access_all atoi parse_duration calls next).accessed in
      (
        Tracks-ext q.declared (λ k. one_of (asked calls) k || also (key_of a) p k)
            (λ k. one_of (asked (a ∷ calls)) k || p k)
            (access_all atoi parse_duration calls next).accessed (λ k. ground arith)
            (subst whole same tracks'),
        same' ∙ same,
      )

  untracked :
      (calls : List Access) (q : Params)
      → q.accessed ≡ none
      → (access_all atoi parse_duration calls q).accessed ≡ none
  unfolding access_all
  untracked [] q h = h
  untracked (a ∷ calls) q h =
      untracked calls (access atoi parse_duration a q)
        (ap (λ (r : Params). r.accessed) (access-param a q) ∙ param_untracked (key_of a) q h)

  -- For any scenario, parsers and sequence of accesses by Param, ParamInt and ParamDuration, whether or
  -- not they find a key or a value that parses: UnusedParams of a context of newScenarioContext has
  -- exactly the declared keys that none of them asked for. A context of newVUScenarioContext that got
  -- no set, as those of the pacing engines do, reports none, whatever was asked for.
  pub unused_params_exact :
      {F : Type 0} (cfg : ScenarioConfig F) (calls : List Access)
      → ((key : String)
          → one_of (unused_params (access_all atoi parse_duration calls (setup_params cfg))) key
            ≡ (declares cfg.params key && not (one_of (asked calls) key)))
        × (unused_params (access_all atoi parse_duration calls (vu_params cfg none)) ≡ [])
  unfolding setup_params vu_params
  unused_params_exact cfg calls = (
    λ key.
        let (tracks, same) =
          access_all-Follows calls (setup_params cfg) (λ k. false) (λ k. ground arith) in
        let last : Params = access_all atoi parse_duration calls (setup_params cfg) in
        ap (λ d. one_of (unused_params (record { declared = d; accessed = last.accessed })) key)
          same
        ∙ report_lem cfg.params (λ k. one_of (asked calls) k || false) last.accessed key tracks
        ∙ ap (λ b. declares cfg.params key && not b) (or_false (one_of (asked calls) key)),
    silent_lem (access_all atoi parse_duration calls (vu_params cfg none))
        (untracked calls (vu_params cfg none) refl),
  )

not_accessed_none :
    (keys : List String) (d : List (String × String))
    → (not_accessed keys d ≡ []) ↔ All (λ (e : String × String). one_of keys e.0 ≡ true) d
unfolding not_accessed
not_accessed_none keys [] = (λ h. tt, λ h. refl)
not_accessed_none keys ((k, v) ∷ d) =
    let (there, back) = not_accessed_none keys d in
    elim (Bool-cases (one_of keys k)) [
      | inl e ↦ rw e (λ h. (refl, there h), λ h. back h.1)
      | inr e ↦ rw e (λ h. cc, λ h. cc)
    ]

-- Nothing is reported as unused exactly when every declared parameter was asked for, or nothing is
-- tracked.
pub unused_params-none :
    (p : Params)
    → (unused_params p ≡ []) ↔ (elim p.accessed [
      | none ↦ Unit {0}
      | some keys ↦ All (λ (e : String × String). one_of keys e.0 ≡ true) p.declared
    ])
unfolding unused_params sort_strings
unused_params-none p = elim (Option-cases p.accessed) [
  | inl untracked ↦ simp (unused_params, untracked) (λ h. tt, λ h. refl)
  | inr (keys, tracked) ↦
      let (there, back) = not_accessed_none keys p.declared in
      simp (unused_params, tracked)
        (
          λ h. there (sort_by-nil (λ s. s) (not_accessed keys p.declared) h),
          λ h. ap (sort_by (λ s. s)) (back h),
        )
]
