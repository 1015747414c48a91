-- ===== src/Prelude/Text.antt =====
-- Texts: Go's strings compare by bytes, which is the order of the code points. Decimal printing as
-- `%d` prints a number that is not negative.
use Prim.Native.Nat.{ℕ, zero, suc, ◌/◌, ◌%◌}
use Prim.Native.String.{String, ◌++◌}
use text.Mathlib.Text.{◌==◌ as str_eq}
use vuhive.Prelude.Tests.{ltb, ◌==◌, if◌then◌else◌}
use mathlib.Core.Path.{◌≡◌, refl, sym, ◌∙◌}
use text.Mathlib.TextEquality.{eq_iff}
use native.Mathlib.Omega.{arith}
use mathlib.Core.Bool.{Bool, true, false}
use mathlib.Core.Option.{Option, none, some}
use mathlib.Core.List.{List, [], ◌∷◌}

abbrev pub digit : ℕ → String
digit n =
    if n == 0
    then "0"
    else if n == 1
    then "1"
    else if n == 2
    then "2"
    else if n == 3
    then "3"
    else if n == 4
    then "4"
    else if n == 5
    then "5"
    else if n == 6
    then "6"
    else if n == 7
    then "7"
    else if n == 8
    then "8"
    else "9"

itoa_fuel : ℕ → ℕ → String
itoa_fuel zero n = ""
itoa_fuel (suc f) n =
    let front = itoa_fuel f (n / 10) in if ltb n 10 then digit n else front ++ digit (n % 10)

-- A number has at most as many digits as its value plus one.
unfoldable pub itoa : ℕ → String
unfolding itoa_fuel
itoa n = itoa_fuel (suc n) n

abbrev pub is_empty : String → Bool
is_empty s = str_eq s ""

-- Membership in a set of texts, and a map with text keys in the order that Go ranges over it.
abbrev pub one_of : List String → String → Bool
one_of [] s = false
one_of (t ∷ ts) s = if str_eq s t then true else one_of ts s

abbrev pub lookup {ℓ} : {V : Type ℓ} → String → List (String × V) → Option V
lookup k [] = none
lookup k ((j, v) ∷ m) = if str_eq j k then some v else lookup k m

abbrev pub insert {ℓ} : {V : Type ℓ} → String → V → List (String × V) → List (String × V)
insert k v [] = (k, v) ∷ []
insert k v ((j, w) ∷ m) = if str_eq j k then (k, v) ∷ m else (j, w) ∷ insert k v m

pub lookup-insert {ℓ} :
    {V : Type ℓ} (k j : String) (v : V) (m : List (String × V))
    → lookup j (insert k v m) ≡ (if str_eq k j then some v else lookup j m)
lookup-insert k j v [] = refl
lookup-insert k j v ((i, w) ∷ m) =
    let rec = lookup-insert k j v m in ground (arith, rec, eq_iff i k, eq_iff k j, eq_iff i j)

-- Two spellings of one text are equal.
pub differ : {s a b : String} → str_eq a b ≡ false → s ≡ a → s ≡ b → ⊥
differ {s} {a} {b} h p q = cc (sym h ∙ (eq_iff a b).1 (sym p ∙ q))

pub str_eq_of_eq : {s a : String} (b : String) (v : Bool) → s ≡ a → str_eq a b ≡ v → str_eq s b ≡ v
str_eq_of_eq b v p h = rw p h

pub str_eq_sym : (a b : String) → str_eq a b ≡ str_eq b a
str_eq_sym a b = ground (arith, eq_iff a b, eq_iff b a)
