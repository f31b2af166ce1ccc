-- ===== src/Schema.antt =====
-- internal/server/tables_service.go and query_parameters.go: the plain data that the services share.
-- A Go slice that is cloned is the same value here, so the clone functions are the identity.
use loca_ql.Prelude.{String, Bool}

pub record TableReference : Type 0 where
  pub project_id : String
  pub dataset_id : String
  pub table_id : String

-- name, type, mode, nested fields
mutual
  pub data TableField : Type 0 where
    field : String → String → String → TableFields → TableField

  pub data TableFields : Type 0 where
    nil : TableFields
    cons : TableField → TableFields → TableFields

pub record QueryParameter : Type 0 where
  pub name : String
  pub type : String
  pub value : String
  pub is_null : Bool

abbrev pub field_name : TableField → String
field_name (field name type mode fields) = name

abbrev pub field_type : TableField → String
field_type (field name type mode fields) = type

abbrev pub field_mode : TableField → String
field_mode (field name type mode fields) = mode

abbrev pub with_name : TableField → String → TableField
with_name (field name type mode fields) new = field new type mode fields
