-- ===== src/Data/Loading.antt =====
-- pkg/vuhive/data/dataset.go: what a loaded record holds.
use vuhive.Prelude.{
  lookup-insert, String, List, [], ◌∷◌, Option, none, some, true, false, ◌≡◌, refl, ◌∙◌, lookup,
  insert, if◌then◌else◌, str_eq, arith, Result, ok, err, is_ok, all, ◌⊎◌, inl, inr,
}
use vuhive.Data.{new_data_set, Strategy, row_record, rows_records, load_csv}

-- The last column of a name: its value, or "" where the row is shorter.
pub column : String → List String → List String → Option String
column k [] row = none
column k (h ∷ hs) [] = elim (column k hs []) [
  | some v ↦ some v
  | none ↦ if str_eq h k then some "" else none
]
column k (h ∷ hs) (v ∷ row) = elim (column k hs row) [
  | some w ↦ some w
  | none ↦ if str_eq h k then some v else none
]

abbrev or_else : Option String → Option String → Option String
or_else (some v) o = some v
or_else none o = o

row_record_lem :
    (k : String) (hs row : List String) (rec : List (String × String))
    → lookup k (row_record hs row rec) ≡ or_else (column k hs row) (lookup k rec)
unfolding row_record column
row_record_lem k [] row rec = refl
row_record_lem k (h ∷ hs) [] rec =
    let ih = row_record_lem k hs [] (insert h "" rec) in
    ground (arith, ih, lookup-insert h k "" rec)
row_record_lem k (h ∷ hs) (v ∷ row) rec =
    let ih = row_record_lem k hs row (insert h v rec) in ground (arith, ih, lookup-insert h k v rec)

or_none : (o : Option String) → or_else o none ≡ o
or_none (some v) = refl
or_none none = refl

module _ {E : Type 0} where
  -- Row by row, each record maps every key as the last column of that name says.
  pub HaveColumns :
      List String → List (Result E (List String)) → List (List (String × String)) → Type 0
  HaveColumns headers [] [] = Unit {0}
  HaveColumns headers [] (r ∷ rs) = ⊥
  HaveColumns headers (row ∷ rows) [] = ⊥
  HaveColumns headers (err e ∷ rows) (r ∷ rs) = ⊥
  HaveColumns headers (ok row ∷ rows) (r ∷ rs) =
      ((k : String) → lookup k r ≡ column k headers row) × HaveColumns headers rows rs

  rows_records-cases :
      (headers : List String) (rows : List (Result E (List String)))
      → ((e : E) × (rows_records headers rows ≡ err e) × (all is_ok rows ≡ false))
        ⊎ ((rs : List (List (String × String))) × (rows_records headers rows ≡ ok rs)
            × (all is_ok rows ≡ true)
            × HaveColumns headers rows rs)
  unfolding rows_records HaveColumns
  rows_records-cases headers [] = inr ([], refl, refl, tt)
  rows_records-cases headers (err e ∷ rows) = inl (e, refl, refl)
  rows_records-cases headers (ok row ∷ rows) = elim (rows_records-cases headers rows) [
    | inl (e, failed, some_bad) ↦ inl (e, rw (rows_records, failed) refl, some_bad)
    | inr (rs, done, fine, columns) ↦ inr (
      row_record headers row [] ∷ rs,
      rw (rows_records, done) refl,
      fine,
      (λ k. row_record_lem k headers row [] ∙ or_none (column k headers row), columns),
    )
  ]

  -- For any headers and rows of the CSV reader: LoadCSV fails exactly when the reader fails at a row.
  -- Otherwise the data set has one record for each row, in their order, with the given strategy and from
  -- its start; each record has exactly the names of the headers as its keys, and the value of a name is
  -- that of its last column, or empty where the row is too short for it.
  pub load_csv-HaveColumns :
      (headers : List String) (rows : List (Result E (List String))) (strategy : Strategy)
      → ((all is_ok rows ≡ false) × (e : E) × (load_csv (ok headers) rows strategy ≡ err e))
        ⊎ ((all is_ok rows ≡ true)
            × (rs : List (List (String × String))) × (load_csv (ok headers) rows strategy
                ≡ ok (record { records = rs; strategy = strategy; cursor = 0 }))
            × HaveColumns headers rows rs)
  unfolding load_csv new_data_set
  load_csv-HaveColumns headers rows strategy = elim (rows_records-cases headers rows) [
    | inl (e, failed, some_bad) ↦ inl (some_bad, e, rw (load_csv, failed) refl)
    | inr (rs, done, fine, columns) ↦ inr (fine, rs, rw (load_csv, done) refl, columns)
  ]
