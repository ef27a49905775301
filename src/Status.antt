-- ===== src/Status.antt =====
-- src/status/status.rs: the error value of the engine, and results that carry it.
mod Codes
pub use Codes.{Code}
use pulsearc_db.Base.{ℕ, String}

-- A message, and one that `format!` ends with a number.
pub data Message : Type 0 where
  text : String → Message
  numbered : String → ℕ → Message

pub record Status : Type 0 where
  pub code : Code
  pub message : Message

unfoldable pub not_found : Message → Status
not_found message = record { code = Code.not_found; message = message }

unfoldable pub corruption : Message → Status
corruption message = record { code = Code.corruption; message = message }

unfoldable pub not_supported : Message → Status
not_supported message = record { code = Code.not_supported; message = message }

unfoldable pub invalid_argument : Message → Status
invalid_argument message = record { code = Code.invalid_argument; message = message }

unfoldable pub io_error : Message → Status
io_error message = record { code = Code.io_error; message = message }
