-- ===== src/Io/Csv/File.antt =====
-- The methods of `CsvMeasurementReader` in src/io/src/csv/csv_measurement_reader.cpp, and `CsvDatasetReader`
-- of src/app/src/dataset_reader.cpp. The file system is a parameter: the lines of the file at a path, or
-- `none` where it cannot be opened.
use falcon_guide.Prelude.{
  ℕ, suc, Bool, true, false, Option, none, some, List, [], ◌∷◌, ◌==◌, if◌then◌else◌,
}
use falcon_guide.Prelude.Bytes.{codes, same}
use falcon_guide.Core.Time.{Timestamp}
use falcon_guide.Estimation.Measurement.{SensorMeasurement, get_timestamp}
use falcon_guide.Io.Reader.{ReadResult, ok, end_of_data, error, ReadOutcome, IDatasetReader}
use falcon_guide.Io.Csv.{CsvNumbers, parse_line}

-- `file` is `none` where it is not open, and the lines that are left to read else; `bad` tells that the
-- stream has failed.
pub record CsvMeasurementReader {ℓ} (D : Type ℓ) : Type ℓ where
  pub path : List ℕ
  pub file : Option (List (List ℕ))
  pub bad : Bool
  pub start_time : Option (Timestamp D)
  pub end_time : Option (Timestamp D)

pub record CsvDatasetReader {ℓ} (D : Type ℓ) : Type ℓ where
  pub reader : CsvMeasurementReader D
  pub count : ℕ

-- Lines that `Next` does not parse.
abbrev pub is_skipped : List ℕ → Bool
is_skipped [] = true
is_skipped (c ∷ cs) = c == b'#'

module _ {ℓ} {D V C P : Type ℓ} (numbers : CsvNumbers D V C P)
    (lines_of : List ℕ → Option (List (List ℕ))) where
  abbrev pub Measurement : Type ℓ
  Measurement = SensorMeasurement D V C P

  unfoldable pub make_reader : List ℕ → CsvMeasurementReader D
  make_reader path = record {
    path = path;
    file = none;
    bad = false;
    start_time = none;
    end_time = none;
  }

  -- `open` on a file that is open fails, and the file stays open.
  unfoldable pub open_file :
      CsvMeasurementReader D
      → Option (List (List ℕ))
      → Option (List (List ℕ))
      → CsvMeasurementReader D × Bool
  open_file r (some lines) found = (record r { bad = true }, true)
  open_file r none (some lines) = (record r { file = some lines; bad = false }, true)
  open_file r none none = (record r { bad = true }, false)

  unfoldable pub open_reader : CsvMeasurementReader D → CsvMeasurementReader D × Bool
  unfolding open_file
  open_reader r = open_file r r.file (lines_of r.path)

  unfoldable pub close : CsvMeasurementReader D → CsvMeasurementReader D
  close r = record r { file = none }

  -- A line that gives a measurement, and the result of its parse.
  unfoldable pub measurement_of : ReadOutcome Measurement → Option Measurement
  measurement_of outcome = elim outcome.result [ ok ↦ outcome.measurement | _ ↦ none ]

  unfoldable pub line_measurement : List ℕ → Option Measurement
  unfolding measurement_of
  line_measurement line = if is_skipped line then none else measurement_of (parse_line numbers line)

  -- A measurement ends the loop, with the lines after it left.
  abbrev pub stop_at :
      Option Measurement
      → List (List ℕ)
      → Option (Measurement × List (List ℕ))
      → Option (Measurement × List (List ℕ))
  stop_at none lines later = later
  stop_at (some m) lines later = some (m, lines)

  -- The loop of `Next` over the lines that are left: the first measurement and the lines after it.
  unfoldable pub next_measurement : List (List ℕ) → Option (Measurement × List (List ℕ))
  next_measurement [] = none
  next_measurement (line ∷ lines) = stop_at (line_measurement line) lines (next_measurement lines)

  abbrev or_start : Option (Timestamp D) → Timestamp D → Option (Timestamp D)
  or_start none t = some t
  or_start (some s) t = some s

  unfoldable pub next_found :
      CsvMeasurementReader D
      → Option (Measurement × List (List ℕ))
      → CsvMeasurementReader D × ReadOutcome Measurement
  next_found r none = (
    record r { file = some []; bad = true },
    record { result = end_of_data; measurement = none; error_message = [] },
  )
  next_found r (some (m, lines)) = (
    record r {
      file = some lines;
      start_time = or_start r.start_time (get_timestamp m);
      end_time = some (get_timestamp m);
    },
    record { result = ok; measurement = some m; error_message = [] },
  )

  unfoldable pub next_from :
      CsvMeasurementReader D
      → Option (List (List ℕ))
      → CsvMeasurementReader D × ReadOutcome Measurement
  unfolding next_found next_measurement
  next_from r none =
      (r, record { result = error; measurement = none; error_message = codes "file not open" })
  next_from r (some lines) = next_found r (if r.bad then none else next_measurement lines)

  unfoldable pub next : CsvMeasurementReader D → CsvMeasurementReader D × ReadOutcome Measurement
  unfolding next_from
  next r = next_from r r.file

  unfoldable pub make_csv : List ℕ → CsvDatasetReader D
  unfolding make_reader
  make_csv path = record { reader = make_reader path; count = 0 }

  unfoldable pub dataset_open : CsvDatasetReader D → CsvDatasetReader D × Bool
  unfolding open_reader
  dataset_open s = let (r, ok?) = open_reader s.reader in (record s { reader = r }, ok?)

  unfoldable pub dataset_close : CsvDatasetReader D → CsvDatasetReader D
  unfolding close
  dataset_close s = record s { reader = close s.reader }

  unfoldable pub rewind : CsvDatasetReader D → CsvDatasetReader D × Bool
  unfolding dataset_open dataset_close
  rewind s = dataset_open (dataset_close s)

  abbrev counted : ReadResult → ℕ → ℕ
  counted ok n = suc n
  counted _ n = n

  abbrev pub count_outcome :
      ℕ
      → CsvMeasurementReader D × ReadOutcome Measurement
      → CsvDatasetReader D × ReadOutcome Measurement
  count_outcome count (r, outcome) =
      (record { reader = r; count = counted outcome.result count }, outcome)

  unfoldable pub dataset_next : CsvDatasetReader D → CsvDatasetReader D × ReadOutcome Measurement
  unfolding next
  dataset_next s = count_outcome s.count (next s.reader)

  -- `CsvDatasetReader` as the session uses it.
  unfoldable pub csv_dataset : IDatasetReader Measurement (CsvDatasetReader D)
  unfolding dataset_open dataset_close dataset_next
  csv_dataset = record {
    open_reader = dataset_open;
    close = dataset_close;
    next = dataset_next;
    measurements_read = λ s. s.count;
  }

  -- `MakeDatasetReader`, with `none` where it throws.
  unfoldable pub make_dataset_reader : List ℕ → List ℕ → Option (CsvDatasetReader D)
  unfolding make_csv
  make_dataset_reader type path = if same type (codes "csv") then some (make_csv path) else none
