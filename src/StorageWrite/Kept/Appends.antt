-- ===== src/StorageWrite/Kept/Appends.antt =====
-- storage_write_service.go: no append takes a stream away or moves its offset back.
use loca_ql.Prelude.{
  ℕ, ◌+◌, String, ◌≡◌, refl, ◌||◌, ◌∙◌, Bool, true, false, Option, none, some, List, ◌++◌, ◌==◌,
  arith, length, ◌⊎◌, inl, inr, Bool-cases, Option-cases,
}
use loca_ql.Prelude.Int.{ℤ}
use loca_ql.GoMap
use loca_ql.GoMap.{GoMap, get-put}
use loca_ql.Schema.{TableField, TableReference}
use loca_ql.Tables.Types.{TableService, TableError, Env}
use loca_ql.StorageWrite.Names.{parse_storage_write_stream_name}
use loca_ql.StorageWrite.Service.{
  WriteStreamKind, write_stream_committed, write_stream_pending, StorageWriteStream,
  StorageWriteService, Status, put_stream,
}
use loca_ql.StorageWrite.Decode.{Codec, AppendRowsRequest, Connection, Reply, decode}
use loca_ql.StorageWrite.Append.{
  switch_to, switched, select_stream, append_to, answer_default, append_default, advance,
  answer_committed, take_as, take_rows, check_offset, append_explicit, append_decoded,
  append_selected,
}
use loca_ql.StorageWrite.Kept.{Far, put-AtLeast}

module _ (name : String) (k : ℕ) where
  switched-streams :
      (q : String) (conn : Connection)
      (x : StorageWriteService × (Status ⊎ (TableReference × Bool × List TableField)))
      → (switched q conn x).0.streams ≡ x.0.streams
  unfolding switched
  switched-streams q conn (s, inl e) = refl
  switched-streams q conn (s, inr (ref, is_default, fields)) = refl

  switch_to-streams :
      (env : Env) (q : String) (target : TableReference × Bool) (s : StorageWriteService)
      → (switch_to env q target s).0.streams ≡ s.streams
  unfolding switch_to
  switch_to-streams env q (ref, true) s = refl
  switch_to-streams env q (ref, false) s = refl

  pub select_stream-streams :
      (env : Env) (q : String) (conn : Connection) (s : StorageWriteService)
      → (select_stream env q conn s).0.streams ≡ s.streams
  unfolding select_stream
  select_stream-streams env q conn s = elim (Bool-cases ((q == "") || (q == conn.current))) [
    | inl here ↦ rw (here, select_stream) refl
    | inr there ↦ elim (Option-cases (parse_storage_write_stream_name q)) [
      | inl bad ↦ rw (there, select_stream, bad) refl
      | inr (target, ok) ↦
          rw (there, select_stream, ok)
            (switched-streams q conn (switch_to env q target s) ∙ switch_to-streams env q target s)
    ]
  ]

  answer_default-streams :
      (r : TableService × (TableError ⊎ ℕ)) (s : StorageWriteService)
      → (answer_default r s).0.streams ≡ s.streams
  unfolding answer_default
  answer_default-streams (ts, inl e) s = refl
  answer_default-streams (ts, inr n) s = refl

  append_default-streams :
      (env : Env) (conn : Connection) (offset : Option ℤ) (rows : List (List String))
      (s : StorageWriteService)
      → (append_default env conn offset rows s).0.streams ≡ s.streams
  unfolding append_default
  append_default-streams env conn none rows s =
      answer_default-streams (append_to env conn.table conn.fields rows s.tables) s
  append_default-streams env conn (some o) rows s = refl

  advance-Far :
      (q : String) (count : ℕ) (st st' : StorageWriteStream) (s : StorageWriteService)
      → GoMap.get s.streams q ≡ some st
      → st'.next_offset ≡ st.next_offset
      → Far name k s
      → Far name k (advance q count st' s).0
  unfolding advance put_stream
  advance-Far q count st st' s at same h =
      put-AtLeast name k q st (record st' { next_offset = st'.next_offset + count }) s.streams at
        (omega (arith, same)) h

  answer_committed-Far :
      (q : String) (count : ℕ) (st : StorageWriteStream) (r : TableService × (TableError ⊎ ℕ))
      (s : StorageWriteService)
      → GoMap.get s.streams q ≡ some st
      → Far name k s
      → Far name k (answer_committed q count st r s).0
  unfolding answer_committed
  answer_committed-Far q count st (ts, inl e) s at h = h
  answer_committed-Far q count st (ts, inr n) s at h =
      advance-Far q count st st (record s { tables = ts }) at refl h

  take_as-Far :
      (env : Env) (q : String) (fields : List TableField) (rows : List (List String))
      (st : StorageWriteStream) (s : StorageWriteService) (kind : WriteStreamKind)
      → GoMap.get s.streams q ≡ some st
      → Far name k s
      → Far name k (take_as env q fields rows st s kind).0
  unfolding take_as
  take_as-Far env q fields rows st s write_stream_committed at h =
      answer_committed-Far q (length rows) st (append_to env st.table fields rows s.tables) s at h
  take_as-Far env q fields rows st s write_stream_pending at h =
      advance-Far q (length rows) st (record st { buffered = st.buffered ++ rows }) s at refl h

  append_explicit-Far :
      (env : Env) (q : String) (fields : List TableField) (offset : Option ℤ)
      (rows : List (List String)) (s : StorageWriteService)
      → Far name k s
      → Far name k (append_explicit env q fields offset rows s).0
  unfolding append_explicit take_rows
  append_explicit-Far env q fields offset rows s h = elim (Option-cases (GoMap.get s.streams q)) [
    | inl missing ↦ rw (missing, append_explicit) h
    | inr (st, at) ↦ elim (Bool-cases st.finalized) [
      | inl shut ↦ rw (at, append_explicit, shut) h
      | inr open_ ↦ elim (Option-cases (check_offset offset st.next_offset)) [
        | inr (reply, bad) ↦ rw (at, append_explicit, open_, bad) h
        | inl ok ↦
            rw (at, append_explicit, open_, ok) (take_as-Far env q fields rows st s st.kind at h)
      ]
    ]
  ]

  append_decoded-Far :
      (env : Env) (offset : Option ℤ) (x : Connection × (Reply ⊎ List (List String)))
      (s : StorageWriteService)
      → Far name k s
      → Far name k (append_decoded env offset x s).0
  unfolding append_decoded
  append_decoded-Far env offset (conn, inl reply) s h = h
  append_decoded-Far env offset (conn, inr rows) s h = elim (Bool-cases conn.is_default) [
    | inl default ↦ simp default (rw (append_default-streams env conn offset rows s) h)
    | inr explicit ↦
        simp explicit (append_explicit-Far env conn.current conn.fields offset rows s h)
  ]

  pub append_selected-Far :
      (env : Env) (codec : Codec) (req : AppendRowsRequest) (old : Connection)
      (x : StorageWriteService × (Status ⊎ Connection))
      → Far name k x.0
      → Far name k (append_selected env codec req old x).0
  unfolding append_selected
  append_selected-Far env codec req old (s, inl e) h = h
  append_selected-Far env codec req old (s, inr conn) h =
      append_decoded-Far env req.offset (decode codec req.payload conn) s h
