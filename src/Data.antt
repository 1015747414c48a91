-- ===== src/Data.antt =====
-- pkg/vuhive/data/dataset.go and strategy.go: the data sets. A record, a Go map, is an association list;
-- the CSV and JSON parsers, and the printing of floats and nested JSON values, are parameters. The
-- cursor is the bit pattern of an atomic int64, so that a call of Next is one atomic step.
pub mod Queue
pub mod Selection
pub mod Loading
mod Tests
use vuhive.Prelude.{
  ℕ, zero, suc, ◌+◌, ◌%◌, String, List, [], ◌∷◌, Option, none, some, Bool, true, false, ℤ, pos,
  negsuc, pos_part, neg_part, sub_ℕ, leb_ℤ, ◌-ℤ◌, is_neg, is_empty, length, get_elem?,
  if◌then◌else◌, Result, ok, err, insert, wrap64,
}
use vuhive.Metric.Collector.{bits, add64}

-- Strategy, an int: `other` is any value that has no name.
pub data Strategy : Type 0 where
  sequential : Strategy
  random : Strategy
  unique_per_vu : Strategy
  shared_queue : Strategy
  other : Strategy

pub record DataSet (R : Type 0) : Type 0 where
  pub records : List R
  pub strategy : Strategy
  pub cursor : ℕ

pub new_data_set : {R : Type 0} → List R → Strategy → DataSet R
new_data_set records strategy = record { records = records; strategy = strategy; cursor = 0 }

-- What Next returns; an index out of range panics.
pub data Next (R : Type 0) : Type 0 where
  selected : R → Next R
  exhausted : Next R
  nil_context : Next R
  out_of_range : Next R

-- ContextAccessor: VUID and Iteration.
pub record ContextAccessor : Type 0 where
  pub vuid : ℤ
  pub iteration : ℤ

-- ds.records[idx]
pub at : {R : Type 0} → List R → ℤ → Next R
at records (negsuc i) = out_of_range
at records (pos i) = elim (get_elem? records i) [ none ↦ out_of_range | some r ↦ selected r ]

-- a % n, with the sign of a.
pub rem : ℤ → ℕ → ℤ
rem a n = sub_ℕ (pos_part a % n) (neg_part a % n)

-- The sum of two int64.
pub sum64 : ℤ → ℤ → ℤ
sum64 a b = wrap64 (bits a + bits b)

vuid_offset : ℤ → ℤ
vuid_offset vuid = let off = sum64 vuid (negsuc 0) in if is_neg off then pos 0 else off

module _ {R : Type 0} where
  -- Sequential and UniquePerVU.
  pub offset_record : Option ContextAccessor → List R → Next R
  unfolding vuid_offset
  offset_record none records = nil_context
  offset_record (some ctx) records =
      at records (rem (sum64 (vuid_offset ctx.vuid) ctx.iteration) (length records))

  pub plain_record : Option ContextAccessor → List R → Next R
  plain_record none records = nil_context
  plain_record (some ctx) records = at records (rem ctx.iteration (length records))

  -- The index that atomic.AddInt64 reserved.
  pub queue_record : ℤ → List R → Next R
  queue_record idx records = if leb_ℤ (pos (length records)) idx then exhausted else at records idx

  -- Next, on records that are not empty.
  pub select : Option ContextAccessor → ℕ → DataSet R → Next R × DataSet R
  unfolding offset_record plain_record queue_record
  select ctx draw ds = elim ds.strategy [
    | sequential ↦ (offset_record ctx ds.records, ds)
    | unique_per_vu ↦ (offset_record ctx ds.records, ds)
    | random ↦ (at ds.records (pos (draw % length ds.records)), ds)
    | shared_queue ↦
        (queue_record (wrap64 ds.cursor) ds.records, record ds { cursor = add64 ds.cursor 1 })
    | other ↦ (plain_record ctx ds.records, ds)
  ]

  -- The draw of the random generator is any number.
  pub next : Option ContextAccessor → ℕ → DataSet R → Next R × DataSet R
  unfolding select
  next ctx draw ds = elim ds.records [ [] ↦ (exhausted, ds) | r ∷ rs ↦ select ctx draw ds ]

  -- Calls of Next, in the order of their atomic steps.
  pub next_all : List (Option ContextAccessor × ℕ) → DataSet R → List (Next R)
  next_all [] ds = []
  next_all ((ctx, draw) ∷ calls) ds = let (out, ds') = next ctx draw ds in out ∷ next_all calls ds'

-- LoadCSV: one row, by the headers. A later column of the same name replaces an earlier one.
pub row_record : List String → List String → List (String × String) → List (String × String)
row_record [] row rec = rec
row_record (h ∷ hs) [] rec = row_record hs [] (insert h "" rec)
row_record (h ∷ hs) (v ∷ row) rec = row_record hs row (insert h v rec)

-- What Read returns, row by row: an error, also for a row of another length than the headers, ends the
-- load.
rows_records :
    {E : Type 0}
    → List String
    → List (Result E (List String))
    → Result E (List (List (String × String)))
rows_records headers [] = ok []
rows_records headers (err e ∷ rows) = err e
rows_records headers (ok row ∷ rows) = elim (rows_records headers rows) [
  | err e ↦ err e
  | ok records ↦ ok (row_record headers row [] ∷ records)
]

pub load_csv :
    {E : Type 0}
    → Result E (List String)
    → List (Result E (List String))
    → Strategy
    → Result E (DataSet (List (String × String)))
unfolding rows_records new_data_set
load_csv (err e) rows strategy = err e
load_csv (ok headers) rows strategy = elim (rows_records headers rows) [
  | err e ↦ err e
  | ok records ↦ ok (new_data_set records strategy)
]

-- A decoded JSON value; V is a float or a nested value.
pub data JsonValue (V : Type 0) : Type 0 where
  null : JsonValue V
  text : String → JsonValue V
  boolean : Bool → JsonValue V
  printed : V → JsonValue V

pub stringify_value : {V : Type 0} → (V → String) → JsonValue V → String
stringify_value print null = ""
stringify_value print (text s) = s
stringify_value print (boolean true) = "true"
stringify_value print (boolean false) = "false"
stringify_value print (printed v) = print v

pub parse_object_to_record :
    {V : Type 0} → (V → String) → List (String × JsonValue V) → List (String × String)
unfolding stringify_value
parse_object_to_record print [] = []
parse_object_to_record print ((k, v) ∷ item) =
    (k, stringify_value print v) ∷ parse_object_to_record print item

parsed_records :
    {V : Type 0} → (V → String) → List (List (String × JsonValue V)) → List (List (String × String))
unfolding parse_object_to_record
parsed_records print [] = []
parsed_records print (item ∷ items) = parse_object_to_record print item ∷ parsed_records print items

-- LoadJSON, from the decoded array.
pub load_json :
    {V E : Type 0}
    → (V → String)
    → Result E (List (List (String × JsonValue V)))
    → Strategy
    → Result E (DataSet (List (String × String)))
unfolding parsed_records new_data_set
load_json print (err e) strategy = err e
load_json print (ok items) strategy = ok (new_data_set (parsed_records print items) strategy)

-- The loop of LoadJSONL over the trimmed lines, each with what json.Unmarshal makes of it.
line_records :
    {V E : Type 0}
    → (V → String)
    → List (String × Result E (List (String × JsonValue V)))
    → Result E (List (List (String × String)))
unfolding parse_object_to_record
line_records print [] = ok []
line_records print ((line, item) ∷ lines) =
    let rest = line_records print lines in
    if is_empty line then rest else elim item [
      | err e ↦ err e
      | ok fields ↦ elim rest [
        | err e ↦ err e
        | ok records ↦ ok (parse_object_to_record print fields ∷ records)
      ]
    ]

pub load_jsonl :
    {V E : Type 0}
    → (V → String)
    → List (String × Result E (List (String × JsonValue V)))
    → Option E
    → Strategy
    → Result E (DataSet (List (String × String)))
unfolding line_records new_data_set
load_jsonl print lines scan_error strategy = elim (line_records print lines) [
  | err e ↦ err e
  | ok records ↦ elim scan_error [ some e ↦ err e | none ↦ ok (new_data_set records strategy) ]
]
