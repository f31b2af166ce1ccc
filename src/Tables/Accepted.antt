-- ===== src/Tables/Accepted.antt =====
-- table_partitioning.go and partition_pruning.go: what holds of a range partitioning that was accepted.
use loca_ql.Prelude.{
  ℕ, zero, suc, ◌<◌, String, ◌≡◌, refl, sym, ◌∙◌, true, false, not, ◌||◌, Option, none, some, List,
  ◌==◌, trim_space, arith, some_inj, inl, inr, Bool-cases,
}
use loca_ql.Prelude.Int.{
  ℤ, pos, negsuc, ◌+ℤ◌, ◌-ℤ◌, ◌≤ℤ◌, ltb_ℤ, min_int64, max_int64, IsInt64, parse_int64-IsInt64,
}
use loca_ql.CellStorage.Validate.{normalize_mode}
use loca_ql.Schema.{TableField, field_name, field_mode, field_type}
use loca_ql.Tables.Types.{RangePartitioning, Env}
use loca_ql.Tables.Partitions.{find_top_level_field, bucket, in_range}
use loca_ql.Tables.Options.{
  Raw, raw_null, raw_bool, raw_string, raw_number, raw_array, raw_object, Members, member_of,
  whole_int64, parse_exact_int64, non_empty_string, raw_members, checked_range, range_of, range_on,
  range_named, range_in, parse_range_partitioning,
}
use loca_ql.Pruning.Buckets.{bucket-le}

whole_int64-IsInt64 : (o : Option ℤ) (z : ℤ) → whole_int64 o ≡ some z → IsInt64 z
unfolding whole_int64
whole_int64-IsInt64 none z h = absurd (cc)
whole_int64-IsInt64 (some x) z h = elim (Bool-cases (ltb_ℤ x min_int64 || ltb_ℤ max_int64 x)) [
  | inl out ↦ absurd (ground arith)
  | inr within ↦
      let same : x ≡ z = some_inj (sym (rw within refl) ∙ h) in rw (← same) (in_bounds x within)
]
  where
    in_bounds : (x : ℤ) → (ltb_ℤ x min_int64 || ltb_ℤ max_int64 x) ≡ false → IsInt64 x
    in_bounds (pos n) k = (ground arith, ground arith)
    in_bounds (negsuc n) k = (ground arith, ground arith)

parse_exact_int64-IsInt64 : (o : Option Raw) (z : ℤ) → parse_exact_int64 o ≡ some z → IsInt64 z
unfolding parse_exact_int64
parse_exact_int64-IsInt64 none z h = absurd (cc)
parse_exact_int64-IsInt64 (some raw_null) z h = absurd (cc)
parse_exact_int64-IsInt64 (some (raw_bool b)) z h = absurd (cc)
parse_exact_int64-IsInt64 (some (raw_string text)) z h = parse_int64-IsInt64 (trim_space text) z h
parse_exact_int64-IsInt64 (some (raw_number value)) z h = whole_int64-IsInt64 value z h
parse_exact_int64-IsInt64 (some raw_array) z h = absurd (cc)
parse_exact_int64-IsInt64 (some (raw_object obj)) z h = absurd (cc)

-- What the buckets of a range rely on.
abbrev pub Accepted : RangePartitioning → Type 0
Accepted config =
    IsInt64 config.start
    × IsInt64 config.end
    × (0 < config.interval)
    × (ltb_ℤ config.start config.end ≡ true)

checked_range-Accepted :
    (name : String) (start end interval : Option ℤ) (config : RangePartitioning)
    → ((z : ℤ) → start ≡ some z → IsInt64 z)
    → ((z : ℤ) → end ≡ some z → IsInt64 z)
    → checked_range name start end interval ≡ some config
    → Accepted config
unfolding checked_range
checked_range-Accepted name none end interval config p q h = absurd (cc)
checked_range-Accepted name (some a) none interval config p q h = absurd (cc)
checked_range-Accepted name (some a) (some b) none config p q h = absurd (cc)
checked_range-Accepted name (some a) (some b) (some (negsuc n)) config p q h = absurd (cc)
checked_range-Accepted name (some a) (some b) (some (pos zero)) config p q h = absurd (cc)
checked_range-Accepted name (some a) (some b) (some (pos (suc n))) config p q h =
    elim (Bool-cases (ltb_ℤ a b)) [
      | inr bad ↦ absurd (none_ne config (sym (rw bad refl) ∙ h))
      | inl good ↦
          let made : RangePartitioning = record {
            field = name;
            start = a;
            end = b;
            interval = suc n;
          } in
          let at : checked_range name (some a) (some b) (some (pos (suc n))) ≡ some made =
            rw good refl in
          let same : made ≡ config = some_inj (sym at ∙ h) in
          rw (← same) (p a refl, q b refl, omega arith, good)
    ]
  where
    none_ne : (c : RangePartitioning) → ◌≡◌ {A = Option RangePartitioning} none (some c) → ⊥
    none_ne c e = cc

module _ (env : Env) (config : RangePartitioning) where
  range_of-Accepted :
      (name : String) (o : Option Members) → range_of name o ≡ some config → Accepted config
  unfolding range_of
  range_of-Accepted name none h = absurd (cc)
  range_of-Accepted name (some obj) h =
      checked_range-Accepted name (parse_exact_int64 (member_of obj "start"))
        (parse_exact_int64 (member_of obj "end")) (parse_exact_int64 (member_of obj "interval"))
        config (parse_exact_int64-IsInt64 (member_of obj "start"))
        (parse_exact_int64-IsInt64 (member_of obj "end")) h

  range_on-Accepted :
      (obj : Members) (o : Option (TableField × ℕ))
      → range_on env obj o ≡ some config
      → Accepted config
  unfolding range_on
  range_on-Accepted obj none h = absurd (cc)
  range_on-Accepted obj (some (f, i)) h =
      elim (Bool-cases (
        not (env.equal_fold (field_type f) "INT64")
        || (normalize_mode (field_mode f) == "REPEATED"))) [
          | inl bad ↦ absurd (none_ne (sym (rw bad refl) ∙ h))
          | inr good ↦
              range_of-Accepted (field_name f) (raw_members (member_of obj "range"))
                (sym (rw good refl) ∙ h)
        ]
    where
      none_ne : ◌≡◌ {A = Option RangePartitioning} none (some config) → ⊥
      none_ne e = cc

  range_named-Accepted :
      (schema : List TableField) (obj : Members) (name : Option String)
      → range_named env schema obj name ≡ some config
      → Accepted config
  unfolding range_named
  range_named-Accepted schema obj none h = absurd (cc)
  range_named-Accepted schema obj (some name) h =
      range_on-Accepted obj (find_top_level_field env schema name) h

  range_in-Accepted :
      (schema : List TableField) (o : Option Members)
      → range_in env schema o ≡ some config
      → Accepted config
  unfolding range_in
  range_in-Accepted schema none h = absurd (cc)
  range_in-Accepted schema (some obj) h =
      range_named-Accepted schema obj (non_empty_string (member_of obj "field")) h

-- A range partitioning that parseRangePartitioning accepts has int64 bounds, the start below the end,
-- and a positive interval. If it has at most 2 ^ 63 - 1 values, then the bucket of a value in the range
-- starts in the range, at most at the value, and ends behind it.
pub parse_range_partitioning-bucket :
    (env : Env) (raw : Raw) (schema : List TableField) (config : RangePartitioning) (v : ℤ)
    → parse_range_partitioning env raw schema ≡ some config
    → config.end -ℤ config.start ≤ℤ max_int64
    → in_range config v ≡ true
    → Accepted config
      × (config.start ≤ℤ bucket config v)
      × (bucket config v ≤ℤ v)
      × (v +ℤ pos 1 ≤ℤ bucket config v +ℤ pos config.interval)
unfolding parse_range_partitioning
parse_range_partitioning-bucket env raw schema config v h narrow inside =
    let ok = range_in-Accepted env config schema (raw_members (some raw)) h in
    let bounds = bucket-le config v ok.0 ok.1 ok.2 narrow inside in
    (ok, bounds.0, bounds.1, bounds.2)
