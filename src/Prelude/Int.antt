-- ===== src/Prelude/Int.antt =====
-- Signed integers over the native numbers, and Go's int64: sums, differences and products wrap, and
-- `/` cuts toward zero.
use Prim.Native.Nat.{ℕ, suc, ◌+◌, ◌-◌, ◌*◌, ◌/◌, ◌%◌, ◌^◌, ◌≤◌}
use Prim.Native.String.{String}
use mathlib.Core.Path.{◌≡◌, refl, sym, ◌∙◌}
use mathlib.Core.Logic.{inl, inr}
use mathlib.Core.Bool.{Bool, ◌&&◌}
use mathlib.Core.Option.{Option, none, some}
use mathlib.Core.List.{List, [], ◌∷◌}
use native.Mathlib.Omega.{arith}
use loca_ql.Prelude.Tests.{ltb, leb, nat_eq, if◌then◌else◌, Bool-cases}
use loca_ql.Prelude.Text.{codes}

-- `negsuc n` is -(n + 1).
pub data ℤ : Type 0 where
  pos : ℕ → ℤ
  negsuc : ℕ → ℤ

abbrev pub pos_part : ℤ → ℕ
pos_part (pos n) = n
pos_part (negsuc n) = 0

abbrev pub neg_part : ℤ → ℕ
neg_part (pos n) = 0
neg_part (negsuc n) = suc n

abbrev pub sub_ℕ : ℕ → ℕ → ℤ
sub_ℕ a b = if leb b a then pos (a - b) else negsuc (b - a - 1)

infixl 65 ◌+ℤ◌ ◌-ℤ◌
infix 50 ◌≤ℤ◌
unfoldable pub ◌+ℤ◌ : ℤ → ℤ → ℤ
a +ℤ b = sub_ℕ (pos_part a + pos_part b) (neg_part a + neg_part b)

unfoldable pub ◌-ℤ◌ : ℤ → ℤ → ℤ
a -ℤ b = sub_ℕ (pos_part a + neg_part b) (neg_part a + pos_part b)

abbrev pub ◌≤ℤ◌ : ℤ → ℤ → Type 0
a ≤ℤ b = pos_part a + neg_part b ≤ pos_part b + neg_part a

abbrev pub ltb_ℤ : ℤ → ℤ → Bool
ltb_ℤ a b = ltb (pos_part a + neg_part b) (pos_part b + neg_part a)

-- The bit pattern of an integer, and the int64 of a pattern.
abbrev pub word64 : ℤ → ℕ
word64 (pos n) = n % 2 ^ 64
word64 (negsuc n) = 2 ^ 64 - 1 - n % 2 ^ 64

abbrev pub signed64 : ℕ → ℤ
signed64 w = if ltb w (2 ^ 63) then pos w else negsuc (2 ^ 64 - w - 1)

unfoldable pub wrap64 : ℤ → ℤ
wrap64 a = signed64 (word64 a)

abbrev pub min_int64 : ℤ
min_int64 = negsuc (2 ^ 63 - 1)

abbrev pub max_int64 : ℤ
max_int64 = pos (2 ^ 63 - 1)

abbrev pub IsInt64 : ℤ → Type 0
IsInt64 a = (min_int64 ≤ℤ a) × (a ≤ℤ max_int64)

-- A product and a quotient, cut toward zero, of an integer and a positive number.
abbrev pub times : ℤ → ℕ → ℤ
times (pos n) k = pos (n * k)
times (negsuc n) k = sub_ℕ 0 (suc n * k)

abbrev pub quot : ℤ → ℕ → ℤ
quot (pos n) k = pos (n / k)
quot (negsuc n) k = sub_ℕ 0 (suc n / k)

-- strconv.ParseInt(s, 10, 64): a sign, then digits, in the range of int64.
digits_value : ℕ → List ℕ → Option ℕ
digits_value acc [] = some acc
digits_value acc (c ∷ cs) =
    let rest = digits_value (acc * 10 + (c - b'0')) cs in
    if leb b'0' c && leb c b'9' then rest else none

unsigned_value : List ℕ → Option ℕ
unfolding digits_value
unsigned_value [] = none
unsigned_value (c ∷ cs) = digits_value 0 (c ∷ cs)

in_int64_pos : Option ℕ → Option ℤ
in_int64_pos none = none
in_int64_pos (some n) = if ltb n (2 ^ 63) then some (pos n) else none

in_int64_neg : Option ℕ → Option ℤ
in_int64_neg none = none
in_int64_neg (some n) = if leb n (2 ^ 63) then some (sub_ℕ 0 n) else none

parse_signed : List ℕ → Option ℤ
unfolding unsigned_value in_int64_pos in_int64_neg
parse_signed [] = none
parse_signed (c ∷ cs) =
    if nat_eq c b'-'
    then in_int64_neg (unsigned_value cs)
    else if nat_eq c b'+'
    then in_int64_pos (unsigned_value cs)
    else in_int64_pos (unsigned_value (c ∷ cs))

unfoldable pub parse_int64 : String → Option ℤ
unfolding parse_signed
parse_int64 s = parse_signed (codes s)

parse_test : parse_int64 "-120" ≡ some (negsuc 119)
unfolding parse_int64
parse_test = refl

wrap_test : wrap64 (pos (2 ^ 63)) ≡ min_int64
unfolding wrap64
wrap_test = refl

in_int64_pos-IsInt64 : (o : Option ℕ) (z : ℤ) → in_int64_pos o ≡ some z → IsInt64 z
unfolding in_int64_pos
in_int64_pos-IsInt64 none z h = absurd (cc)
in_int64_pos-IsInt64 (some n) (pos m) h = (omega arith, ground arith)
in_int64_pos-IsInt64 (some n) (negsuc m) h = absurd (ground arith)

in_int64_neg-IsInt64 : (o : Option ℕ) (z : ℤ) → in_int64_neg o ≡ some z → IsInt64 z
unfolding in_int64_neg
in_int64_neg-IsInt64 none z h = absurd (cc)
in_int64_neg-IsInt64 (some n) (pos m) h = (omega arith, ground arith)
in_int64_neg-IsInt64 (some n) (negsuc m) h = (ground arith, omega arith)

parse_signed-IsInt64 : (cs : List ℕ) (z : ℤ) → parse_signed cs ≡ some z → IsInt64 z
unfolding parse_signed
parse_signed-IsInt64 [] z h = absurd (cc)
parse_signed-IsInt64 (c ∷ cs) z h = elim (Bool-cases (nat_eq c b'-')) [
  | inl minus ↦ in_int64_neg-IsInt64 (unsigned_value cs) z (sym (rw minus refl) ∙ h)
  | inr other ↦ elim (Bool-cases (nat_eq c b'+')) [
    | inl plus ↦ in_int64_pos-IsInt64 (unsigned_value cs) z (sym (rw (other, plus) refl) ∙ h)
    | inr digit ↦
        in_int64_pos-IsInt64 (unsigned_value (c ∷ cs)) z (sym (rw (other, digit) refl) ∙ h)
  ]
]

pub parse_int64-IsInt64 : (s : String) (z : ℤ) → parse_int64 s ≡ some z → IsInt64 z
unfolding parse_int64
parse_int64-IsInt64 s z h = parse_signed-IsInt64 (codes s) z h
