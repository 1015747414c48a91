-- ===== src/Engine/Context/Groups/Transparent.antt =====
-- internal/engine/context.go: the groups with their cached child contexts against groups without a cache.
use vuhive.Prelude.{
  lookup-insert, String, List, [], ◌∷◌, ◌++◌, some, some_inj, none≢some, ℤ, ◌≡◌, refl, sym, ◌∙◌, ap,
  subst, lookup, if◌then◌else◌, str_eq, eq_iff, Bool-cases, Option-cases, inl, inr,
}
use vuhive.Engine.Context.Groups.{
  Fixed, ScenarioContext, group_metric_name, join_path, Children, child_of, enter_group, Groups,
  stop, enter, Visit, run_groups, run_iterations,
}

module _ {C G : Type 0} where
  -- A group's context, made anew each time.
  pub plain_child : String → ScenarioContext C G → ScenarioContext C G
  plain_child name c = record c { group_path = join_path c.group_path name; http_clients = [] }

  -- The visits without any cache.
  pub plain_groups : ScenarioContext C G → Groups → List (Visit C G)
  plain_groups c stop = []
  plain_groups c (enter name inner rest) =
      plain_groups (plain_child name c) inner
      ++ ((plain_child name c, group_metric_name (join_path c.group_path name))
          ∷ plain_groups c rest)

  -- Each child is cached under its path, and shares the fields that nothing changes.
  pub AreChildren : Fixed G → Children C G → Type 0
  AreChildren f m =
      (path : String) (c : ScenarioContext C G)
      → lookup path m ≡ some c
      → (c.group_path ≡ path) × (c.http_clients ≡ []) × (c.fixed ≡ f)

  child_of-plain :
      (name : String) (c : ScenarioContext C G) (m : Children C G)
      → AreChildren c.fixed m
      → child_of (join_path c.group_path name) c (lookup (join_path c.group_path name) m)
        ≡ plain_child name c
  unfolding child_of plain_child AreChildren
  child_of-plain name c m good = elim (Option-cases (lookup (join_path c.group_path name) m)) [
    | inl new ↦ rw new refl
    | inr (old, known) ↦
        let (path, clients, fixed) = good (join_path c.group_path name) old known in
        rw (child_of, known)
          (λ i. record {
            context = c.context;
            iteration = c.iteration;
            group_path = path i;
            http_clients = clients i;
            fixed = fixed i;
          })
  ]

  enter_group-AreChildren :
      (name : String) (c : ScenarioContext C G) (m : Children C G)
      → AreChildren c.fixed m
      → ((enter_group name c m).0 ≡ plain_child name c)
        × AreChildren c.fixed (enter_group name c m).1
  unfolding enter_group AreChildren
  enter_group-AreChildren name c m good =
      let same = child_of-plain name c m good in
      let path : String = join_path c.group_path name in
      let child : ScenarioContext C G = child_of path c (lookup path m) in
      (
        same,
        λ p x found.
            let looked = sym (lookup-insert path p child m) ∙ found in
            elim (Bool-cases (str_eq path p)) [
              | inl hit ↦
                  let it : child ≡ x =
                    some_inj
                      (subst (λ b. (if b then some child else lookup p m) ≡ some x) hit looked) in
                  subst (λ y. (y.group_path ≡ p) × (y.http_clients ≡ []) × (y.fixed ≡ c.fixed))
                    (sym same ∙ it) (unfold plain_child in ((eq_iff path p).0 hit, refl, refl))
              | inr miss ↦
                  good p x
                    (subst (λ b. (if b then some child else lookup p m) ≡ some x) miss looked)
            ],
      )

  -- The run agrees with the plain one, and the cache stays good.
  run_groups_lem :
      (c : ScenarioContext C G) (f : Fixed G) (groups : Groups) (m : Children C G)
      → c.fixed ≡ f
      → AreChildren f m
      → ((run_groups c groups m).0 ≡ plain_groups c groups)
        × AreChildren f (run_groups c groups m).1
  unfolding run_groups plain_groups plain_child
  run_groups_lem c f stop m same good = (refl, good)
  run_groups_lem c f (enter name inner rest) m same good =
      let (e, kept) =
        enter_group-AreChildren name c m (subst (λ g. AreChildren g m) (sym same) good) in
      let (child, entered) = enter_group name c m in
      let (inside, left) =
        run_groups_lem child f inner entered (ap (λ (x : ScenarioContext C G). x.fixed) e ∙ same)
          (subst (λ g. AreChildren g entered) same kept) in
      let (after, last) = run_groups_lem c f rest (run_groups child inner entered).1 same left in
      let nested = inside ∙ ap (λ x. plain_groups x inner) e in
      (λ i. nested i ++ ((e i, group_metric_name (e i).group_path) ∷ after i), last)

  pub plain_iterations : ScenarioContext C G → List (C × ℤ × Groups) → List (List (Visit C G))
  plain_iterations c [] = []
  plain_iterations c ((ctx, iteration, groups) ∷ rest) =
      plain_groups (record c { context = ctx; iteration = iteration }) groups
      ∷ plain_iterations c rest

  -- Each iteration sets the context and the iteration anew.
  plain_iterations_lem :
      (c : ScenarioContext C G) (ctx : C) (n : ℤ) (its : List (C × ℤ × Groups))
      → plain_iterations (record c { context = ctx; iteration = n }) its ≡ plain_iterations c its
  unfolding plain_iterations
  plain_iterations_lem c ctx n [] = refl
  plain_iterations_lem c ctx n ((ctx', n', groups) ∷ its) =
      ap (λ l. plain_groups (record c { context = ctx'; iteration = n' }) groups ∷ l)
        (plain_iterations_lem c ctx n its)

  run_iterations_lem :
      (c : ScenarioContext C G) (f : Fixed G) (its : List (C × ℤ × Groups)) (m : Children C G)
      → c.fixed ≡ f
      → AreChildren f m
      → run_iterations c its m ≡ plain_iterations c its
  unfolding run_iterations plain_iterations
  run_iterations_lem c f [] m same good = refl
  run_iterations_lem c f ((ctx, iteration, groups) ∷ its) m same good =
      let c' : ScenarioContext C G = record c { context = ctx; iteration = iteration } in
      let (visits, kept) = run_groups_lem c' f groups m same good in
      let rest = run_iterations_lem c' f its (run_groups c' groups m).1 same kept in
      λ i. visits i ∷ (rest ∙ plain_iterations_lem c ctx iteration its) i

  -- For any context of a virtual user that has entered no group yet, and any sequence of iterations with
  -- any nesting and repetition of groups: the calls of the groups' functions, with the contexts that
  -- they get and the metrics that observe them when they end, are the same as if each child context were
  -- made anew. So each call is observed exactly once, under the metric of the path of names that leads to
  -- it, and runs with the context and the iteration that its parent has then; but without the HTTP
  -- clients of the context, which no child gets.
  pub run_iterations-plain_iterations :
      (c : ScenarioContext C G) (its : List (C × ℤ × Groups))
      → run_iterations c its [] ≡ plain_iterations c its
  unfolding AreChildren
  run_iterations-plain_iterations c its =
      run_iterations_lem c c.fixed its [] refl (λ path x found. absurd (none≢some found))
