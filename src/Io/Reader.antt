-- ===== src/Io/Reader.antt =====
-- src/io/include/falconguide/io/measurement_reader.hpp and
-- src/app/include/falconguide/app/dataset_reader.hpp: what a reader returns, and its interface.
use falcon_guide.Prelude.{ℕ, Bool, Option, List}

pub data ReadResult : Type 0 where
  ok end_of_data timeout error : ReadResult

-- The error message is bytes.
pub record ReadOutcome {ℓ} (M : Type ℓ) : Type ℓ where
  pub result : ReadResult
  pub measurement : Option M
  pub error_message : List ℕ

-- A dataset reader with state `R`.
pub record IDatasetReader {ℓ} (M R : Type ℓ) : Type ℓ where
  pub open_reader : R → R × Bool
  pub close : R → R
  pub next : R → R × ReadOutcome M
  pub measurements_read : R → ℕ
