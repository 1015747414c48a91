-- ===== src/Sse/Lines.antt =====
-- pkg/vuhive/http/sse.go: a line that is a field is taken apart into that field and its value.
use vuhive.Prelude.{
  ℕ, List, Option, ℤ, [], ◌∷◌, ◌++◌, Bool, true, false, ◌||◌, not, ◌≡◌, refl, sym, ap, ◌∙◌, ◌==◌,
  all, arith, Bool-cases, inl, inr, false≢true,
}
use vuhive.Sse.{
  Bytes, colon, space, line_feed, is_line_end, kept, trim_right, split_field, Pending, apply_field,
  take_line,
}

-- A byte of a field's name.
abbrev pub is_plain : ℕ → Bool
is_plain b = not (is_line_end b || (b == colon))

pub ++-nil {ℓ} : {A : Type ℓ} (xs : List A) → xs ++ [] ≡ xs
++-nil [] = refl
++-nil (x ∷ xs) = λ i. x ∷ ++-nil xs i

pub ++-assoc {ℓ} : {A : Type ℓ} (xs ys zs : List A) → (xs ++ ys) ++ zs ≡ xs ++ (ys ++ zs)
++-assoc [] ys zs = refl
++-assoc (x ∷ xs) ys zs = λ i. x ∷ ++-assoc xs ys zs i

trim_right-line_feed : (bs : Bytes) → trim_right (bs ++ line_feed ∷ []) ≡ trim_right bs
unfolding trim_right
trim_right-line_feed [] = refl
trim_right-line_feed (b ∷ bs) = ap (kept b) (trim_right-line_feed bs)

pub kept_plain : (b : ℕ) (bs : Bytes) → is_line_end b ≡ false → kept b bs ≡ b ∷ bs
kept_plain b [] h = rw h refl
kept_plain b (c ∷ cs) h = refl

plain_parts : (b : ℕ) → is_plain b ≡ true → (is_line_end b ≡ false) × ((b == colon) ≡ false)
plain_parts b h = (ground arith, ground arith)

all_head :
    (b : ℕ) (name : Bytes)
    → all is_plain (b ∷ name) ≡ true
    → (is_plain b ≡ true) × (all is_plain name ≡ true)
all_head b name h = elim (Bool-cases (is_plain b)) [
  | inl e ↦ (e, (sym (rw e refl)) ∙ h)
  | inr e ↦ absurd (false≢true ((sym (rw e refl)) ∙ h))
]

trim_right-field :
    (name bs : Bytes) → all is_plain name ≡ true → trim_right (name ++ bs) ≡ name ++ trim_right bs
unfolding trim_right
trim_right-field [] bs h = refl
trim_right-field (b ∷ name) bs h =
    let p = all_head b name h in
    let step : kept b (trim_right (name ++ bs)) ≡ kept b (name ++ trim_right bs) =
      ap (kept b) (trim_right-field name bs p.1) in
    step ∙ kept_plain b (name ++ trim_right bs) (plain_parts b p.0).0

split_field-colon :
    (name value : Bytes)
    → all is_plain name ≡ true
    → split_field (name ++ colon ∷ space ∷ value) ≡ (name, value)
unfolding split_field
split_field-colon [] value h = refl
split_field-colon (b ∷ name) value h =
    let p = all_head b name h in rw ((plain_parts b p.0).1, split_field-colon name value p.1) refl

-- The text of a field, as it is after the line feed is cut off.
pub trim_right-field_text :
    (name value : Bytes)
    → all is_plain name ≡ true
    → trim_right value ≡ value
    → trim_right ((name ++ colon ∷ space ∷ value) ++ line_feed ∷ []) ≡ name ++ colon ∷ space ∷ value
unfolding trim_right
trim_right-field_text name value h whole =
    let cut : trim_right (colon ∷ space ∷ value) ≡ kept colon (kept space value) =
      ap (λ (v : Bytes). kept colon (kept space v)) whole in
    let put : kept colon (kept space value) ≡ colon ∷ space ∷ value =
      ap (kept colon) (kept_plain space value refl) in
    trim_right-line_feed (name ++ colon ∷ space ∷ value)
    ∙ trim_right-field name (colon ∷ space ∷ value) h
    ∙ ap (λ (bs : Bytes). name ++ bs) (cut ∙ put)

pub take_line-field :
    (atoi : Bytes → Option ℤ) (p : Pending) (b : ℕ) (name value : Bytes)
    → all is_plain (b ∷ name) ≡ true
    → take_line atoi p ((b ∷ name) ++ colon ∷ space ∷ value) ≡ apply_field atoi (b ∷ name) value p
unfolding take_line
take_line-field atoi p b name value h =
    let p' = all_head b name h in
    rw ((plain_parts b p'.0).1, split_field-colon name value p'.1) refl
