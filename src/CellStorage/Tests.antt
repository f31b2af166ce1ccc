-- ===== src/CellStorage/Tests.antt =====
-- Concrete cells, and the theorem at one of them.
use loca_ql.Prelude.{◌≡◌, false}
use loca_ql.CellStorage.{store_string_cell, load_stored_cell, load-store}

-- The text that NULL is tagged with.
load-store_example : load_stored_cell (store_string_cell "\0locaql:null") ≡ ("\0locaql:null", false)
load-store_example = load-store "\0locaql:null"
