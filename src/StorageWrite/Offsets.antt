-- ===== src/StorageWrite/Offsets.antt =====
-- storage_write_service.go: the offsets of an explicit stream.
use loca_ql.Prelude.{
  ℕ, suc, ◌+◌, ◌<◌, ◌≤◌, String, ◌≡◌, ◌≢◌, refl, sym, ap, ◌∙◌, true, false, Option, none, some,
  List, ◌∷◌, ◌++◌, arith, length, ◌⊎◌, inl, inr, Bool-cases, Option-cases,
}
use loca_ql.Prelude.Int.{ℤ, pos}
use loca_ql.GoMap
use loca_ql.GoMap.{get-put_self}
use loca_ql.Schema.{TableField}
use loca_ql.Tables.Types.{TableService, TableError, Env}
use loca_ql.StorageWrite.Service.{
  WriteStreamKind, write_stream_committed, write_stream_pending, StorageWriteStream,
  StorageWriteService, failed_precondition, not_found, put_stream,
}
use loca_ql.StorageWrite.Decode.{Reply, closed, offset_exists, appended}
use loca_ql.StorageWrite.Append.{
  append_to, advance, answer_committed, take_as, take_rows, check_offset, append_explicit,
}
use loca_ql.StorageWrite.Requests.{Request, NotCreated, handle_all}
use loca_ql.StorageWrite.Kept.Histories.{handle_all-Far}

-- The stream is open and its next offset is `next`.
OpenAt : String → ℕ → StorageWriteService → Type 0
OpenAt name next s =
    (st : StorageWriteStream) × (GoMap.get s.streams name ≡ some st)
    × (st.finalized ≡ false)
    × (st.next_offset ≡ next)

Advanced : String → ℕ → ℕ → ℕ → StorageWriteService → Type 0
Advanced name next count n s = (n ≡ next) × OpenAt name (next + count) s

advance-Advanced :
    (name : String) (count n : ℕ) (st : StorageWriteStream) (s : StorageWriteService)
    → st.finalized ≡ false
    → (advance name count st s).1 ≡ appended n
    → Advanced name st.next_offset count n (advance name count st s).0
unfolding OpenAt Advanced advance put_stream
advance-Advanced name count n st s open_ h =
    let st' = record st { next_offset = st.next_offset + count } in
    (ground arith, (st', get-put_self s.streams name st', open_, refl))

answer-Advanced :
    (name : String) (count n : ℕ) (st : StorageWriteStream) (r : TableService × (TableError ⊎ ℕ))
    (s : StorageWriteService)
    → st.finalized ≡ false
    → (answer_committed name count st r s).1 ≡ appended n
    → Advanced name st.next_offset count n (answer_committed name count st r s).0
unfolding answer_committed
answer-Advanced name count n st (ts, inl e) s open_ h = absurd (ground arith)
answer-Advanced name count n st (ts, inr m) s open_ h =
    advance-Advanced name count n st (record s { tables = ts }) open_ h

take_as-Advanced :
    (env : Env) (name : String) (fields : List TableField) (rows : List (List String)) (n : ℕ)
    (st : StorageWriteStream) (s : StorageWriteService) (kind : WriteStreamKind)
    → st.finalized ≡ false
    → (take_as env name fields rows st s kind).1 ≡ appended n
    → Advanced name st.next_offset (length rows) n (take_as env name fields rows st s kind).0
unfolding take_as
take_as-Advanced env name fields rows n st s write_stream_committed open_ h =
    answer-Advanced name (length rows) n st (append_to env st.table fields rows s.tables) s open_ h
take_as-Advanced env name fields rows n st s write_stream_pending open_ h =
    advance-Advanced name (length rows) n (record st { buffered = st.buffered ++ rows }) s open_ h

take_rows-Advanced :
    (env : Env) (name : String) (fields : List TableField) (rows : List (List String)) (n : ℕ)
    (st : StorageWriteStream) (s : StorageWriteService)
    → st.finalized ≡ false
    → (take_rows env name fields rows st s).1 ≡ appended n
    → Advanced name st.next_offset (length rows) n (take_rows env name fields rows st s).0
unfolding take_rows
take_rows-Advanced env name fields rows n st s open_ h =
    take_as-Advanced env name fields rows n st s st.kind open_ h

module _ (env : Env) (name : String) (fields : List TableField) (rows : List (List String)) where
  append-at :
      (offset : Option ℤ) (st : StorageWriteStream) (s : StorageWriteService)
      → GoMap.get s.streams name ≡ some st
      → st.finalized ≡ false
      → check_offset offset st.next_offset ≡ none
      → append_explicit env name fields offset rows s ≡ take_rows env name fields rows st s
  unfolding append_explicit
  append-at offset st s found open_ ok = rw (found, append_explicit) (simp (open_, ok))

  append-refused :
      (offset : Option ℤ) (st : StorageWriteStream) (reply : Reply) (s : StorageWriteService)
      → GoMap.get s.streams name ≡ some st
      → st.finalized ≡ false
      → check_offset offset st.next_offset ≡ some reply
      → append_explicit env name fields offset rows s ≡ (s, reply)
  unfolding append_explicit
  append-refused offset st reply s found open_ bad = rw (found, append_explicit, open_, bad) refl

  append-closed :
      (offset : Option ℤ) (st : StorageWriteStream) (s : StorageWriteService)
      → GoMap.get s.streams name ≡ some st
      → st.finalized ≡ true
      → append_explicit env name fields offset rows s ≡ (s, closed failed_precondition)
  unfolding append_explicit
  append-closed offset st s found shut = rw (found, append_explicit, shut) refl

  append-missing :
      (offset : Option ℤ) (s : StorageWriteService)
      → GoMap.get s.streams name ≡ none
      → append_explicit env name fields offset rows s ≡ (s, closed not_found)
  unfolding append_explicit
  append-missing offset s found = rw (found, append_explicit) refl

  check_offset-reply :
      (offset : Option ℤ) (next n : ℕ) (reply : Reply)
      → check_offset offset next ≡ some reply
      → reply ≢ appended n
  unfolding check_offset
  check_offset-reply offset next n reply h e = absurd (ground arith)

  append-Advanced :
      (offset : Option ℤ) (n : ℕ) (s : StorageWriteService)
      → (append_explicit env name fields offset rows s).1 ≡ appended n
      → (st : StorageWriteStream) × (check_offset offset st.next_offset ≡ none)
        × Advanced name st.next_offset
            (length rows)
            n
            (append_explicit env name fields offset rows s).0
  append-Advanced offset n s h = elim (Option-cases (GoMap.get s.streams name)) [
    | inl missing ↦ absurd (ground (arith, append-missing offset s missing))
    | inr (st, found) ↦ elim (Bool-cases st.finalized) [
      | inl shut ↦ absurd (ground (arith, append-closed offset st s found shut))
      | inr open_ ↦ elim (Option-cases (check_offset offset st.next_offset)) [
        | inr (reply, bad) ↦ absurd (
            check_offset-reply offset st.next_offset n reply bad
              (ap (λ r. r.1) (sym (append-refused offset st reply s found open_ bad)) ∙ h))
        | inl ok ↦
            let at = append-at offset st s found open_ ok in
            (
              st,
              ok,
              rw at (
                  take_rows-Advanced env name fields rows n st s open_
                    (ap (λ r. r.1) (sym at) ∙ h)),
            )
      ]
    ]
  ]

-- The order of ℤ on the two sides of an offset.
check_offset-none : (o next : ℕ) → check_offset (some (pos o)) next ≡ none → o ≡ next
unfolding check_offset
check_offset-none o next h = ground arith

check_offset-exists :
    (o next : ℕ) → o < next → check_offset (some (pos o)) next ≡ some (offset_exists next)
unfolding check_offset
check_offset-exists o next h = ground arith

-- An append to an explicit stream at an offset, of at least one row, that is accepted is answered with
-- that offset. After any requests to the service that follow, of whatever clients, none of which creates a
-- stream with the name again, an append at the same offset, of whatever rows, changes nothing: no table
-- and no stream. It is answered with "already exists" and a next offset past the rows of the first append,
-- or, where the stream has been finalized, with "failed precondition".
pub append_explicit-again :
    (env env' : Env) (name : String) (fields fields' : List TableField) (o n : ℕ)
    (row : List String) (rows rows' : List (List String)) (history : List (Env × Request))
    (s : StorageWriteService)
    → (append_explicit env name fields (some (pos o)) (row ∷ rows) s).1 ≡ appended n
    → let s₁ = (append_explicit env name fields (some (pos o)) (row ∷ rows) s).0 in
      NotCreated name history s₁
      → let s₂ =
          handle_all history (append_explicit env name fields (some (pos o)) (row ∷ rows) s).0 in
        let again = append_explicit env' name fields' (some (pos o)) rows' s₂ in
        (n ≡ o)
        × (((next : ℕ) × (o + suc (length rows) ≤ next) × (again ≡ (s₂, offset_exists next)))
            ⊎ (again ≡ (s₂, closed failed_precondition)))
unfolding Advanced OpenAt
append_explicit-again env env' name fields fields' o n row rows rows' history s h fresh =
    let s₁ = (append_explicit env name fields (some (pos o)) (row ∷ rows) s).0 in
    let s₂ = handle_all history s₁ in
    let (st, ok, (same, (st₁, found₁, open₁, next₁))) =
      append-Advanced env name fields (row ∷ rows) (some (pos o)) n s h in
    let here : o ≡ st.next_offset = check_offset-none o st.next_offset ok in
    let (st₂, found, far) =
      handle_all-Far name (o + suc (length rows)) history s₁ fresh (st₁, found₁, omega arith) in
    (
      omega arith,
      elim (Bool-cases st₂.finalized) [
        | inl shut ↦ inr (append-closed env' name fields' rows' (some (pos o)) st₂ s₂ found shut)
        | inr open₂ ↦ inl (
          st₂.next_offset,
          far,
          append-refused env' name fields' rows' (some (pos o)) st₂ (offset_exists st₂.next_offset)
              s₂ found open₂ (check_offset-exists o st₂.next_offset (omega arith)),
        )
      ],
    )
