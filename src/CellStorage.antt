-- ===== src/CellStorage.antt =====
-- internal/server/cell_storage.go: SQL NULL and texts in one string, with the tags that tell them apart.
pub mod Validate
mod Tests
use Prim.Native.Char.{code}
use Prim.Native.String.append
use loca_ql.Prelude.{
  ℕ, ◌<>◌, String, ◌≡◌, ◌≢◌, refl, sym, ap, ◌∙◌, ◌||◌, Bool, true, false, Option, none, some, arith,
  eq_iff, ◌==◌, if◌then◌else◌, nat_eq, is_some, Option-cases, Bool-cases, inl, inr, ne→==_false,
}

abbrev pub stored_null_cell : String
stored_null_cell = "\0locaql:null"

abbrev pub stored_escaped_cell_prefix : String
stored_escaped_cell_prefix = "\0locaql:value:"

-- strings.HasPrefix and strings.TrimPrefix: what follows the prefix.
unfoldable pub cut_prefix : String → String → Option String
cut_prefix String.[] s = some s
cut_prefix (String.◌∷◌ c p) String.[] = none
cut_prefix (String.◌∷◌ c p) (String.◌∷◌ d s) =
    let rest = cut_prefix p s in if nat_eq (code c) (code d) then rest else none

unfoldable pub store_string_cell : String → String
store_string_cell value =
    if (value == stored_null_cell) || is_some (cut_prefix stored_escaped_cell_prefix value)
    then stored_escaped_cell_prefix <> value
    else value

-- The value, and whether it is NULL.
unfoldable pub load_stored_cell : String → String × Bool
load_stored_cell cell =
    if cell == stored_null_cell
    then ("", true)
    else elim (cut_prefix stored_escaped_cell_prefix cell) [
      | some value ↦ (value, false)
      | none ↦ (cell, false)
    ]

unfoldable pub stored_cell_is_null : String → Bool
stored_cell_is_null cell = cell == stored_null_cell

cut_prefix-append : (p s : String) → cut_prefix p (p <> s) ≡ some s
unfolding cut_prefix
cut_prefix-append String.[] s = ap some (append.nil s)
cut_prefix-append (String.◌∷◌ c p) s =
    let same : nat_eq (code c) (code c) ≡ true = ground arith in
    rw (append.cons c p s, same, cut_prefix) (cut_prefix-append p s)

escaped_ne_null : (v : String) → (stored_escaped_cell_prefix <> v) ≢ stored_null_cell
escaped_ne_null v e = absurd (
    cc (
      sym (cut_prefix-append stored_escaped_cell_prefix v)
      ∙ ap (cut_prefix stored_escaped_cell_prefix) e
      ∙ null_lem))
  where
    null_lem : cut_prefix stored_escaped_cell_prefix stored_null_cell ≡ none
    null_lem = unfold cut_prefix in refl

or_plain : String → Option String → String × Bool
or_plain cell none = (cell, false)
or_plain cell (some value) = (value, false)

load-text :
    (cell : String)
    → (cell == stored_null_cell) ≡ false
    → load_stored_cell cell ≡ or_plain cell (cut_prefix stored_escaped_cell_prefix cell)
unfolding load_stored_cell or_plain
load-text cell h = elim (Option-cases (cut_prefix stored_escaped_cell_prefix cell)) [
  | inl e ↦ rw (h, e, load_stored_cell, or_plain) refl
  | inr (w, e) ↦ rw (h, e, load_stored_cell, or_plain) refl
]

-- A text that is stored and loaded is the same text and is not NULL, whatever it is: the tag of NULL
-- and the prefix of an escaped text included.
pub load-store : (v : String) → load_stored_cell (store_string_cell v) ≡ (v, false)
unfolding store_string_cell or_plain
load-store v =
    elim (Bool-cases
      ((v == stored_null_cell) || is_some (cut_prefix stored_escaped_cell_prefix v))) [
        | inl tagged ↦
            let stored : store_string_cell v ≡ stored_escaped_cell_prefix <> v =
              rw (tagged, store_string_cell) refl in
            ap load_stored_cell stored
            ∙ load-text (stored_escaped_cell_prefix <> v)
                (ne→==_false (stored_escaped_cell_prefix <> v) stored_null_cell (escaped_ne_null v))
            ∙ ap (or_plain (stored_escaped_cell_prefix <> v))
                (cut_prefix-append stored_escaped_cell_prefix v)
        | inr plain ↦
            let stored : store_string_cell v ≡ v = rw (plain, store_string_cell) refl in
            let not_null : (v == stored_null_cell) ≡ false = ground arith in
            let no_prefix : cut_prefix stored_escaped_cell_prefix v ≡ none =
              elim (Option-cases (cut_prefix stored_escaped_cell_prefix v)) [
                | inl e ↦ e
                | inr (w, e) ↦ absurd (ground arith)
              ] in
            ap load_stored_cell stored ∙ load-text v not_null ∙ ap (or_plain v) no_prefix
      ]
