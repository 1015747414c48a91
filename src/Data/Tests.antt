-- ===== src/Data/Tests.antt =====
-- pkg/vuhive/data: three records under each strategy, and a small CSV.
use vuhive.Prelude.{
  ℕ, ◌+◌, ◌%◌, ◌≡◌, refl, String, List, [], ◌∷◌, Option, none, true, false, ◌⊎◌, Result, ok, err,
  is_ok, all, length, arith,
}
use vuhive.Data.{
  new_data_set, sequential, random, unique_per_vu, shared_queue, other, selected, exhausted,
  nil_context, ContextAccessor, next, next_all, load_csv, row_record, rows_records,
}
use vuhive.Data.Queue.{served, next_all-served}
use vuhive.Data.Selection.{Picks, user_at, set_of, next-IsAt}
use vuhive.Data.Loading.{HaveColumns, load_csv-HaveColumns}

abbrev letters : List String
letters = "a" ∷ "b" ∷ "c" ∷ []

-- Five calls, by two virtual users.
abbrev calls : List (Option ContextAccessor × ℕ)
calls = (user_at 0 0, 0) ∷ (user_at 1 0, 0) ∷ (user_at 0 1, 0) ∷ (user_at 0 2, 0) ∷ (none, 0) ∷ []

five_served :
    served (length calls) letters
    ≡ selected "a" ∷ selected "b" ∷ selected "c" ∷ exhausted ∷ exhausted ∷ []
unfolding served
five_served = refl

next_all-served_example :
    next_all calls (new_data_set letters shared_queue) ≡ served (length calls) letters
next_all-served_example = next_all-served calls letters (omega arith)

next-IsAt_example :
    Picks
      (set_of letters sequential 0)
      ((4 + 7) % 3)
      (next (user_at 4 7) 9 (set_of letters sequential 0))
    × Picks
        (set_of letters unique_per_vu 0)
        ((4 + 7) % 3)
        (next (user_at 4 7) 9 (set_of letters unique_per_vu 0))
    × Picks (set_of letters random 0) (9 % 3) (next none 9 (set_of letters random 0))
    × Picks (set_of letters other 0) (7 % 3) (next (user_at 4 7) 9 (set_of letters other 0))
    × (next none 9 (set_of letters sequential 0) ≡ (nil_context, set_of letters sequential 0))
    × (next none 9 (set_of letters unique_per_vu 0) ≡ (nil_context, set_of letters unique_per_vu 0))
next-IsAt_example = next-IsAt "a" ("b" ∷ "c" ∷ []) 4 7 9 0 (omega arith)

abbrev rows : List (Result String (List String))
rows = ok ("ann" ∷ "secret" ∷ []) ∷ ok ("bob" ∷ "hidden" ∷ []) ∷ []

abbrev headers : List String
headers = "user" ∷ "password" ∷ []

two_users :
    load_csv (ok headers) rows shared_queue
    ≡ ok (record {
      records =
          (("user", "ann") ∷ ("password", "secret") ∷ [])
          ∷ (("user", "bob") ∷ ("password", "hidden") ∷ [])
          ∷ [];
      strategy = shared_queue;
      cursor = 0;
    })
unfolding load_csv rows_records row_record new_data_set
two_users = refl

load_csv-HaveColumns_example :
    ((all is_ok rows ≡ false) × (e : String) × (load_csv (ok headers) rows shared_queue ≡ err e))
    ⊎ ((all is_ok rows ≡ true)
        × (rs : List (List (String × String))) × (load_csv (ok headers) rows shared_queue
            ≡ ok (record { records = rs; strategy = shared_queue; cursor = 0 }))
        × HaveColumns headers rows rs)
load_csv-HaveColumns_example = load_csv-HaveColumns headers rows shared_queue
