-- ===== src/Data/Selection.antt =====
-- pkg/vuhive/data/dataset.go: the record that each strategy selects.
use vuhive.Prelude.{
  ℕ, zero, suc, ◌+◌, ◌%◌, ◌<◌, ◌≡◌, refl, sym, ◌∙◌, ap, List, [], ◌∷◌, Option, none, some, some_inj,
  pos, length, get_elem?, arith,
}
use vuhive.Data.{
  DataSet, Strategy, sequential, random, unique_per_vu, other, Next, selected, nil_context,
  ContextAccessor, at, rem, sum64, vuid_offset, offset_record, plain_record, select, next,
}

module _ {R : Type 0} where
  -- The record at an index below the length.
  abbrev pub IsAt : List R → ℕ → Next R → Type 0
  IsAt rs i out = (r : R) × (get_elem? rs i ≡ some r) × (out ≡ selected r)

  at-IsAt : (rs : List R) (i : ℕ) → i < length rs → IsAt rs i (at rs (pos i))
  unfolding at
  at-IsAt [] i h = absurd (omega arith)
  at-IsAt (r ∷ rs) zero h = (r, refl, refl)
  at-IsAt (r ∷ rs) (suc i) h = at-IsAt rs i (omega arith)

rem_lem : (a n : ℕ) → 0 < n → rem (pos a) n ≡ pos (a % n)
unfolding rem
rem_lem a n h = grind arith

off_lem : (vu : ℕ) → suc vu < 9223372036854775808 → vuid_offset (pos (suc vu)) ≡ pos vu
unfolding vuid_offset sum64
off_lem vu h = ground arith

sum64_lem : (a b : ℕ) → a + b < 9223372036854775808 → sum64 (pos a) (pos b) ≡ pos (a + b)
unfolding sum64
sum64_lem a b h = ground arith

offset_lem :
    (vu iteration : ℕ)
    → suc vu + iteration < 9223372036854775808
    → sum64 (vuid_offset (pos (suc vu))) (pos iteration) ≡ pos (vu + iteration)
offset_lem vu iteration h =
    ap (λ v. sum64 v (pos iteration)) (off_lem vu (omega arith))
    ∙ sum64_lem vu iteration (omega arith)

index_lt : (a n : ℕ) → 0 < n → a % n < n
index_lt a n h = grind arith

abbrev pub user_at : ℕ → ℕ → Option ContextAccessor
user_at vu iteration = some (record { vuid = pos (suc vu); iteration = pos iteration })

module _ {R : Type 0} where
  -- What Next gives: the record at an index, with the data set as it was.
  abbrev pub Picks : DataSet R → ℕ → Next R × DataSet R → Type 0
  Picks s i out = IsAt s.records i out.0 × (out.1 ≡ s)

  abbrev pub set_of : List R → Strategy → ℕ → DataSet R
  set_of rs strategy cursor = record { records = rs; strategy = strategy; cursor = cursor }

  offset_record_lem :
      (r : R) (rs : List R) (vu iteration : ℕ)
      → suc vu + iteration < 9223372036854775808
      → IsAt
          (r ∷ rs)
          ((vu + iteration) % length (r ∷ rs))
          (offset_record (user_at vu iteration) (r ∷ rs))
  unfolding offset_record
  offset_record_lem r rs vu iteration h =
      let n : ℕ = length (r ∷ rs) in
      let e =
        ap (λ s. rem s n) (offset_lem vu iteration h) ∙ rem_lem (vu + iteration) n (omega arith) in
      rw e (at-IsAt (r ∷ rs) ((vu + iteration) % n) (index_lt (vu + iteration) n (omega arith)))

  -- For any records that are not empty, any virtual user (numbered vu + 1, as the pacing engines do) and
  -- any iteration whose sum is below 2 ^ 63: Next selects a record and changes nothing. Under Sequential
  -- and UniquePerVU it is the one at (vu + iteration) modulo the number of records; under Random at the
  -- draw modulo that number; under a strategy without a name at the iteration modulo that number. The
  -- first two need a context, and return ErrNilContext without one, which changes nothing either.
  pub next-IsAt :
      (r : R) (rs : List R) (vu iteration draw cursor : ℕ)
      → suc vu + iteration < 9223372036854775808
      → Picks
          (set_of (r ∷ rs) sequential cursor)
          ((vu + iteration) % length (r ∷ rs))
          (next (user_at vu iteration) draw (set_of (r ∷ rs) sequential cursor))
        × Picks
            (set_of (r ∷ rs) unique_per_vu cursor)
            ((vu + iteration) % length (r ∷ rs))
            (next (user_at vu iteration) draw (set_of (r ∷ rs) unique_per_vu cursor))
        × Picks
            (set_of (r ∷ rs) random cursor)
            (draw % length (r ∷ rs))
            (next none draw (set_of (r ∷ rs) random cursor))
        × Picks
            (set_of (r ∷ rs) other cursor)
            (iteration % length (r ∷ rs))
            (next (user_at vu iteration) draw (set_of (r ∷ rs) other cursor))
        × (next none draw (set_of (r ∷ rs) sequential cursor)
            ≡ (nil_context, set_of (r ∷ rs) sequential cursor))
        × (next none draw (set_of (r ∷ rs) unique_per_vu cursor)
            ≡ (nil_context, set_of (r ∷ rs) unique_per_vu cursor))
  unfolding next select plain_record offset_record
  next-IsAt r rs vu iteration draw cursor h =
      let n : ℕ = length (r ∷ rs) in
      let picked = offset_record_lem r rs vu iteration h in
      (
        (picked, refl),
        (picked, refl),
        (at-IsAt (r ∷ rs) (draw % n) (index_lt draw n (omega arith)), refl),
        (
          rw (rem_lem iteration n (omega arith))
              (at-IsAt (r ∷ rs) (iteration % n) (index_lt iteration n (omega arith))),
          refl,
        ),
        refl,
        refl,
      )

  -- For any records that are not empty: under UniquePerVU, a virtual user gets in each iteration the very
  -- record that the virtual user before it gets in the next one.
  unique_per_vu_overlaps :
      (r : R) (rs : List R) (vu iteration draw cursor : ℕ)
      → suc (suc vu) + iteration < 9223372036854775808
      → (x : R) × ((next (user_at (suc vu) iteration) draw (set_of (r ∷ rs) unique_per_vu cursor)).0
          ≡ selected x)
        × ((next (user_at vu (suc iteration)) draw (set_of (r ∷ rs) unique_per_vu cursor)).0
            ≡ selected x)
  unique_per_vu_overlaps r rs vu iteration draw cursor h =
      let (x, found, out) = (next-IsAt r rs (suc vu) iteration draw cursor (omega arith)).1.0 in
      let (y, found', out') = (next-IsAt r rs vu (suc iteration) draw cursor (omega arith)).1.0 in
      let shift : suc vu + iteration ≡ vu + suc iteration = omega arith in
      let same = sym found ∙ ap (λ k. get_elem? (r ∷ rs) (k % length (r ∷ rs))) shift ∙ found' in
      (x, out, out' ∙ ap selected (sym (some_inj same)))
