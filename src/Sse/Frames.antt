-- ===== src/Sse/Frames.antt =====
-- pkg/vuhive/http/sse.go: the lines of one event, and what Next gathers from them. A frame is written
-- by a printer of its own, which stands for the server.
use vuhive.Prelude.{
  ℕ, List, [], ◌∷◌, ◌++◌, Option, none, some, Bool, true, false, not, ℤ, pos, ◌≡◌, refl, sym, ap,
  ◌∙◌, all, if◌then◌else◌, Bool-cases, inl, inr,
}
use vuhive.Sse.{
  Bytes, colon, space, line_feed, event_field, data_field, id_field, retry_field, trim_right,
  Pending, Read, full, apply_field, take_line, set_retry,
}
use vuhive.Sse.Lines.{++-assoc, trim_right-field_text, take_line-field, kept_plain, is_plain}

-- A line: a comment or a field with its value.
pub data Line : Type 0 where
  comment : Bytes → Line
  event_line : Bytes → Line
  data_line : Bytes → Line
  id_line : Bytes → Line
  retry_line : ℤ → Line

abbrev pub event_value : Line → Option Bytes
event_value (event_line v) = some v
event_value l = none

abbrev pub data_value : Line → Option Bytes
data_value (data_line v) = some v
data_value l = none

abbrev pub id_value : Line → Option Bytes
id_value (id_line v) = some v
id_value l = none

abbrev pub retry_value : Line → Option ℤ
retry_value (retry_line n) = some n
retry_value l = none

abbrev pub is_comment : Line → Bool
is_comment (comment v) = true
is_comment l = false

abbrev pub with_head : {A : Type 0} → Option A → List A → List A
with_head none as' = as'
with_head (some a) as' = a ∷ as'

abbrev pub chosen : {A : Type 0} → (Line → Option A) → List Line → List A
chosen f [] = []
chosen f (l ∷ ls) = with_head (f l) (chosen f ls)

abbrev pub last_or : {A : Type 0} → A → List A → A
last_or a [] = a
last_or a (b ∷ bs) = last_or b bs

-- The texts with a line feed between them.
abbrev pub joined : List Bytes → Bytes
joined [] = []
joined (v ∷ []) = v
joined (v ∷ w ∷ ws) = v ++ line_feed ∷ joined (w ∷ ws)

abbrev pub none_of : {A : Type 0} → List A → Bool
none_of [] = true
none_of (a ∷ as') = false

-- What the lines of a frame mean: the last event type, id and retry, and all the data.
abbrev pub gathered : List Line → Pending
gathered ls = record {
  payload = joined (chosen data_value ls);
  event = last_or [] (chosen event_value ls);
  id = last_or [] (chosen id_value ls);
  retry = last_or (pos 0) (chosen retry_value ls);
  has_data = not (none_of (chosen data_value ls));
  has_field = not (all is_comment ls);
}

abbrev pub field_text : Bytes → Bytes → Bytes
field_text name value = name ++ colon ∷ space ∷ value

abbrev pub printed : Bytes → Read
printed text = full (text ++ line_feed ∷ [])

module _ (itoa : ℤ → Bytes) where
  abbrev pub line_text : Line → Bytes
  line_text (comment v) = colon ∷ v
  line_text (event_line v) = field_text event_field v
  line_text (data_line v) = field_text data_field v
  line_text (id_line v) = field_text id_field v
  line_text (retry_line n) = field_text retry_field (itoa n)

module _ (atoi : Bytes → Option ℤ) (itoa : ℤ → Bytes) where
  -- No value of the line ends in a line end, which TrimRight would cut off, and Atoi reads a retry back.
  abbrev pub IsWhole : Line → Type 0
  IsWhole (comment v) = Unit
  IsWhole (event_line v) = trim_right v ≡ v
  IsWhole (data_line v) = trim_right v ≡ v
  IsWhole (id_line v) = trim_right v ≡ v
  IsWhole (retry_line n) = (trim_right (itoa n) ≡ itoa n) × (atoi (itoa n) ≡ some n)

with_head-append :
    {A : Type 0} (o : Option A) (xs ys : List A) → with_head o xs ++ ys ≡ with_head o (xs ++ ys)
with_head-append none xs ys = refl
with_head-append (some a) xs ys = refl

module _ {A : Type 0} (f : Line → Option A) where
  chosen_skip : (ls : List Line) (l : Line) → f l ≡ none → chosen f (ls ++ l ∷ []) ≡ chosen f ls
  chosen_skip [] l h = rw h refl
  chosen_skip (k ∷ ls) l h = ap (with_head (f k)) (chosen_skip ls l h)

  chosen_more :
      (ls : List Line) (l : Line) (a : A)
      → f l ≡ some a
      → chosen f (ls ++ l ∷ []) ≡ chosen f ls ++ a ∷ []
  chosen_more [] l a h = rw h refl
  chosen_more (k ∷ ls) l a h =
      ap (with_head (f k)) (chosen_more ls l a h)
      ∙ sym (with_head-append (f k) (chosen f ls) (a ∷ []))

module _ {A : Type 0} where
  last_or-append : (a b : A) (bs : List A) → last_or a (bs ++ b ∷ []) ≡ b
  last_or-append a b [] = refl
  last_or-append a b (c ∷ bs) = last_or-append c b bs

  none_of-append : (a : A) (as' : List A) → none_of (as' ++ a ∷ []) ≡ false
  none_of-append a [] = refl
  none_of-append a (b ∷ bs) = refl

joined-append :
    (vs : List Bytes) (v : Bytes)
    → joined (vs ++ v ∷ [])
      ≡ (if not (none_of vs) then joined vs ++ line_feed ∷ v else joined vs ++ v)
joined-append [] v = refl
joined-append (w ∷ []) v = refl
joined-append (w ∷ x ∷ vs) v =
    ap (λ (bs : Bytes). w ++ line_feed ∷ bs) (joined-append (x ∷ vs) v)
    ∙ sym (++-assoc w (line_feed ∷ joined (x ∷ vs)) (line_feed ∷ v))

comments_end :
    (ls : List Line) (l : Line)
    → all is_comment (ls ++ l ∷ []) ≡ (if all is_comment ls then is_comment l else false)
comments_end [] l = elim (Bool-cases (is_comment l)) [ inl e ↦ rw e refl | inr e ↦ rw e refl ]
comments_end (k ∷ ls) l = elim (Bool-cases (is_comment k)) [
  | inl e ↦ rw e (comments_end ls l)
  | inr e ↦ rw e refl
]

Pending_path :
    {p q : Pending}
    → p.payload ≡ q.payload
    → p.event ≡ q.event
    → p.id ≡ q.id
    → p.retry ≡ q.retry
    → p.has_data ≡ q.has_data
    → p.has_field ≡ q.has_field
    → p ≡ q
Pending_path a b c d e f = λ i. record {
  payload = a i;
  event = b i;
  id = c i;
  retry = d i;
  has_data = e i;
  has_field = f i;
}

field_end :
    (ls : List Line) (l : Line) → is_comment l ≡ false → true ≡ not (all is_comment (ls ++ l ∷ []))
field_end ls l h = elim (Bool-cases (all is_comment ls)) [
  | inl e ↦ rw (comments_end ls l, e, h) refl
  | inr e ↦ rw (comments_end ls l, e) refl
]

comment_end :
    (ls : List Line) (v : Bytes)
    → not (all is_comment ls) ≡ not (all is_comment (ls ++ comment v ∷ []))
comment_end ls v = elim (Bool-cases (all is_comment ls)) [
  | inl e ↦ rw (comments_end ls (comment v), e) refl
  | inr e ↦ rw (comments_end ls (comment v), e) refl
]

-- What a line leaves as it was, and what it sets.
module _ (ls : List Line) (l : Line) where
  same_text :
      (f : Line → Option Bytes)
      → f l ≡ none
      → last_or [] (chosen f ls) ≡ last_or [] (chosen f (ls ++ l ∷ []))
  same_text f h = sym (ap (last_or []) (chosen_skip f ls l h))

  same_retry :
      retry_value l ≡ none
      → last_or (pos 0) (chosen retry_value ls)
        ≡ last_or (pos 0) (chosen retry_value (ls ++ l ∷ []))
  same_retry h = sym (ap (last_or (pos 0)) (chosen_skip retry_value ls l h))

  same_payload :
      data_value l ≡ none
      → joined (chosen data_value ls) ≡ joined (chosen data_value (ls ++ l ∷ []))
  same_payload h = sym (ap joined (chosen_skip data_value ls l h))

  same_has_data :
      data_value l ≡ none
      → not (none_of (chosen data_value ls)) ≡ not (none_of (chosen data_value (ls ++ l ∷ [])))
  same_has_data h = sym (ap (λ (vs : List Bytes). not (none_of vs)) (chosen_skip data_value ls l h))

  last_set :
      {A : Type 0} (f : Line → Option A) (a b : A)
      → f l ≡ some b
      → b ≡ last_or a (chosen f (ls ++ l ∷ []))
  last_set f a b h =
      sym (ap (last_or a) (chosen_more f ls l b h) ∙ last_or-append a b (chosen f ls))

module _ (atoi : Bytes → Option ℤ) (itoa : ℤ → Bytes) where
  field_taken :
      (p : Pending) (b : ℕ) (name value : Bytes)
      → all is_plain (b ∷ name) ≡ true
      → trim_right value ≡ value
      → take_line atoi p (trim_right (field_text (b ∷ name) value ++ line_feed ∷ []))
        ≡ apply_field atoi (b ∷ name) value p
  field_taken p b name value h whole =
      ap (take_line atoi p) (trim_right-field_text (b ∷ name) value h whole)
      ∙ take_line-field atoi p b name value h

  comment_taken :
      (p : Pending) (v : Bytes) → take_line atoi p (trim_right (colon ∷ (v ++ line_feed ∷ []))) ≡ p
  unfolding take_line trim_right
  comment_taken p v =
      ap (take_line atoi p) (kept_plain colon (trim_right (v ++ line_feed ∷ [])) refl)

  -- One more line of a frame.
  pub take_line-gathered :
      (ls : List Line) (l : Line)
      → IsWhole atoi itoa l
      → take_line atoi (gathered ls) (trim_right (line_text itoa l ++ line_feed ∷ []))
        ≡ gathered (ls ++ l ∷ [])
  take_line-gathered ls (comment v) whole =
      comment_taken (gathered ls) v
      ∙ Pending_path (same_payload ls (comment v) refl) (same_text ls (comment v) event_value refl)
          (same_text ls (comment v) id_value refl) (same_retry ls (comment v) refl)
          (same_has_data ls (comment v) refl) (comment_end ls v)
  take_line-gathered ls (event_line v) whole =
      field_taken (gathered ls) 101 (118 ∷ 101 ∷ 110 ∷ 116 ∷ []) v refl whole
      ∙ Pending_path (same_payload ls (event_line v) refl)
          (last_set ls (event_line v) event_value [] v refl)
          (same_text ls (event_line v) id_value refl) (same_retry ls (event_line v) refl)
          (same_has_data ls (event_line v) refl) (field_end ls (event_line v) refl)
  take_line-gathered ls (data_line v) whole =
      field_taken (gathered ls) 100 (97 ∷ 116 ∷ 97 ∷ []) v refl whole
      ∙ Pending_path
          (sym (
            ap joined (chosen_more data_value ls (data_line v) v refl)
            ∙ joined-append (chosen data_value ls) v))
          (same_text ls (data_line v) event_value refl) (same_text ls (data_line v) id_value refl)
          (same_retry ls (data_line v) refl)
          (sym (
            ap (λ (vs : List Bytes). not (none_of vs))
              (chosen_more data_value ls (data_line v) v refl)
            ∙ ap not (none_of-append v (chosen data_value ls))))
          (field_end ls (data_line v) refl)
  take_line-gathered ls (id_line v) whole =
      field_taken (gathered ls) 105 (100 ∷ []) v refl whole
      ∙ Pending_path (same_payload ls (id_line v) refl) (same_text ls (id_line v) event_value refl)
          (last_set ls (id_line v) id_value [] v refl) (same_retry ls (id_line v) refl)
          (same_has_data ls (id_line v) refl) (field_end ls (id_line v) refl)
  take_line-gathered ls (retry_line n) whole =
      field_taken (gathered ls) 114 (101 ∷ 116 ∷ 114 ∷ 121 ∷ []) (itoa n) refl whole.0
      ∙ ap (λ (o : Option ℤ). set_retry o (gathered ls)) whole.1
      ∙ Pending_path (same_payload ls (retry_line n) refl)
          (same_text ls (retry_line n) event_value refl) (same_text ls (retry_line n) id_value refl)
          (last_set ls (retry_line n) retry_value (pos 0) n refl)
          (same_has_data ls (retry_line n) refl) (field_end ls (retry_line n) refl)
