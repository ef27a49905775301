-- ===== src/Status/Codes.antt =====
-- The codes of src/status/status.rs.
pub data Code : Type 0 where
  ok not_found corruption not_supported invalid_argument io_error : Code
