-- ===== src/Prelude/Text.antt =====
-- Go's `strings.TrimSpace`, and the comparison of `strings.ToUpper s` with an ASCII constant, on
-- code points. Of the letters outside ASCII only U+0131 and U+017F have an upper case in ASCII, and
-- only U+0130 and U+212A a lower case in ASCII; the others stay themselves, which no comparison
-- with an ASCII constant sees.
use Prim.Native.Nat.{ℕ, zero, suc, ◌+◌, ◌-◌, ◌/◌, ◌%◌}
use Prim.Native.Char.{Char, code}
use Prim.Native.String.{String, ◌++◌}
use mathlib.Core.Path.{◌≡◌, refl}
use mathlib.Core.Bool.{Bool, true, false, ◌&&◌, ◌||◌}
use mathlib.Core.List.{List, [], ◌∷◌, map}
use loca_ql.Prelude.Tests.{if◌then◌else◌, ltb, leb, nat_eq}

abbrev pub codes : String → List ℕ
codes String.[] = []
codes (String.◌∷◌ c s) = code c ∷ codes s

unfoldable pub is_space : ℕ → Bool
is_space c =
    (leb 9 c && leb c 13)
    || nat_eq c 32
    || nat_eq c 0x85
    || nat_eq c 0xa0
    || nat_eq c 0x1680
    || (leb 0x2000 c && leb c 0x200a)
    || nat_eq c 0x2028
    || nat_eq c 0x2029
    || nat_eq c 0x202f
    || nat_eq c 0x205f
    || nat_eq c 0x3000

unfoldable pub trim_left : String → String
unfolding is_space
trim_left String.[] = String.[]
trim_left (String.◌∷◌ c s) =
    let rest = trim_left s in if is_space (code c) then rest else String.◌∷◌ c s

trim_cons : Char → String → String
unfolding is_space
trim_cons c String.[] = if is_space (code c) then String.[] else String.◌∷◌ c String.[]
trim_cons c (String.◌∷◌ d s) = String.◌∷◌ c (String.◌∷◌ d s)

unfoldable pub trim_right : String → String
unfolding trim_cons
trim_right String.[] = String.[]
trim_right (String.◌∷◌ c s) = trim_cons c (trim_right s)

unfoldable pub trim_space : String → String
unfolding trim_left trim_right
trim_space s = trim_right (trim_left s)

unfoldable pub upper : ℕ → ℕ
upper c =
    if leb b'a' c && leb c b'z'
    then c - 32
    else if nat_eq c 0x131
    then 73
    else if nat_eq c 0x17f
    then 83
    else c

unfoldable pub lower : ℕ → ℕ
lower c =
    if leb b'A' c && leb c b'Z'
    then c + 32
    else if nat_eq c 0x130
    then 105
    else if nat_eq c 0x212a
    then 107
    else c

pub same_codes : List ℕ → List ℕ → Bool
same_codes [] [] = true
same_codes (a ∷ as') (b ∷ bs) = nat_eq a b && same_codes as' bs
same_codes _ _ = false

-- strings.ToUpper(s) == k and strings.ToLower(s) == k, at an ASCII constant k.
unfoldable pub upper_is : String → String → Bool
unfolding upper same_codes
upper_is s k = same_codes (map upper (codes s)) (codes k)

unfoldable pub lower_is : String → String → Bool
unfolding lower same_codes
lower_is s k = same_codes (map lower (codes s)) (codes k)

-- strings.EqualFold(s, k) at an ASCII constant k: besides the other case of a letter, U+017F folds to
-- "s" and U+212A to "k".
unfoldable pub fold : ℕ → ℕ
fold c =
    if leb b'A' c && leb c b'Z'
    then c + 32
    else if nat_eq c 0x17f
    then 115
    else if nat_eq c 0x212a
    then 107
    else c

unfoldable pub equal_fold : String → String → Bool
unfolding fold same_codes
equal_fold s k = same_codes (map fold (codes s)) (map fold (codes k))

digit : ℕ → String
digit zero = "0"
digit (suc zero) = "1"
digit (suc (suc zero)) = "2"
digit (suc (suc (suc zero))) = "3"
digit (suc (suc (suc (suc zero)))) = "4"
digit (suc (suc (suc (suc (suc zero))))) = "5"
digit (suc (suc (suc (suc (suc (suc zero)))))) = "6"
digit (suc (suc (suc (suc (suc (suc (suc zero))))))) = "7"
digit (suc (suc (suc (suc (suc (suc (suc (suc zero)))))))) = "8"
digit _ = "9"

-- Each round leaves a smaller number, so as many rounds as the number suffice.
format_rounds : ℕ → ℕ → String
unfolding digit
format_rounds zero n = digit (n % 10)
format_rounds (suc f) n =
    let rest = format_rounds f (n / 10) in if ltb n 10 then digit n else rest ++ digit (n % 10)

-- strconv.FormatInt(n, 10)
unfoldable pub format_int : ℕ → String
unfolding format_rounds
format_int n = format_rounds n n

trim_test : trim_space "  a b\n" ≡ "a b"
unfolding trim_space
trim_test = refl

upper_test : upper_is "Batch" "BATCH" ≡ true
unfolding upper_is
upper_test = refl

format_test : format_int 1207 ≡ "1207"
unfolding format_int
format_test = refl
