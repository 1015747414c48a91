-- ===== src/Prelude/Sorting.antt =====
-- sort.Strings and slices.SortFunc by a text: an insertion sort, which is what any sort of entries with
-- different keys gives.
use Prim.Native.Nat.{Ordering}
use Prim.Native.String.{String, compare}
use mathlib.Core.Path.{◌≡◌, refl, ap, ◌∙◌, subst}
use mathlib.Core.Logic.{inl, inr}
use mathlib.Core.Bool.{Bool, true, false}
use mathlib.Core.List.{List, [], ◌∷◌, ◌++◌}
use native.Mathlib.Omega.{arith}
use vuhive.Prelude.Tests.{if◌then◌else◌, Bool-cases}
use vuhive.Prelude.Lists.{All}
use vuhive.Prelude.Text.{one_of}
use text.Mathlib.Text.{◌==◌ as str_eq}

abbrev pub str_le : String → String → Bool
str_le a b = elim (compare a b) [ Ordering.gt ↦ false | _ ↦ true ]

module _ {A : Type 0} (key : A → String) where
  abbrev pub insert_by : A → List A → List A
  insert_by a [] = a ∷ []
  insert_by a (b ∷ bs) = if str_le (key a) (key b) then a ∷ b ∷ bs else b ∷ insert_by a bs

  abbrev pub sort_by : List A → List A
  sort_by [] = []
  sort_by (a ∷ as') = insert_by a (sort_by as')

insert_by_some : {A : Type 0} (key : A → String) (a : A) (bs : List A) → insert_by key a bs ≡ [] → ⊥
insert_by_some key a [] h = cc
insert_by_some key a (b ∷ bs) h = elim (Bool-cases (str_le (key a) (key b))) [
  | inl e ↦ cc (subst (λ t. (if t then a ∷ b ∷ bs else b ∷ insert_by key a bs) ≡ []) e h)
  | inr e ↦ cc (subst (λ t. (if t then a ∷ b ∷ bs else b ∷ insert_by key a bs) ≡ []) e h)
]

pub sort_by-nil : {A : Type 0} (key : A → String) (as' : List A) → sort_by key as' ≡ [] → as' ≡ []
sort_by-nil key [] h = refl
sort_by-nil key (a ∷ as') h = absurd (insert_by_some key a (sort_by key as') h)

-- Whether an element passes a test.
abbrev pub has : {A : Type 0} → (A → Bool) → List A → Bool
has p [] = false
has p (a ∷ as') = if p a then true else has p as'

pub one_of-has : (l : List String) (k : String) → one_of l k ≡ has (str_eq k) l
one_of-has [] k = refl
one_of-has (j ∷ l) k = ap (λ (b : Bool). if str_eq k j then true else b) (one_of-has l k)

pub has-append :
    {A : Type 0} (p : A → Bool) (xs ys : List A)
    → has p (xs ++ ys) ≡ (if has p xs then true else has p ys)
has-append p [] ys = refl
has-append p (x ∷ xs) ys = let rec = has-append p xs ys in ground (arith, rec)

-- A sort keeps what the list has.
module _ {A : Type 0} (key : A → String) (p : A → Bool) where
  has-insert_by :
      (a : A) (bs : List A) → has p (insert_by key a bs) ≡ (if p a then true else has p bs)
  has-insert_by a [] = refl
  has-insert_by a (b ∷ bs) = let rec = has-insert_by a bs in ground (arith, rec)

  pub has-sort_by : (as' : List A) → has p (sort_by key as') ≡ has p as'
  has-sort_by [] = refl
  has-sort_by (a ∷ as') =
      has-insert_by a (sort_by key as')
      ∙ ap (λ (b : Bool). if p a then true else b) (has-sort_by as')

module _ {A : Type 0} (key : A → String) (P : A → Type 0) where
  All-insert_by : (a : A) (bs : List A) → P a → All P bs → All P (insert_by key a bs)
  All-insert_by a [] h hs = (h, hs)
  All-insert_by a (b ∷ bs) h hs = elim (Bool-cases (str_le (key a) (key b))) [
    | inl e ↦ rw e (h, hs)
    | inr e ↦ rw e (hs.0, All-insert_by a bs h hs.1)
  ]

  pub All-sort_by : (as' : List A) → All P as' → All P (sort_by key as')
  All-sort_by [] hs = tt
  All-sort_by (a ∷ as') hs = All-insert_by a (sort_by key as') hs.0 (All-sort_by as' hs.1)

pub All-append :
    {A : Type 0} (P : A → Type 0) (xs ys : List A) → All P xs → All P ys → All P (xs ++ ys)
All-append P [] ys h k = k
All-append P (x ∷ xs) ys h k = (h.0, All-append P xs ys h.1 k)
