-- ===== src/App/Replay.antt =====
-- A session that replays a CSV file: src/app/src/session.cpp over src/app/src/dataset_reader.cpp and
-- src/io/src/csv/csv_measurement_reader.cpp.
use falcon_guide.Prelude.{
  ℕ, suc, ◌≡◌, refl, sym, ap, ◌∙◌, subst, Option, none, some, true, false, List, [], ◌∷◌, ◌++◌,
  length,
}
use falcon_guide.Io.Reader.{ReadOutcome}
use falcon_guide.Estimation.Interface.{INavigationEstimator}
use falcon_guide.Io.Csv.{CsvNumbers}
use falcon_guide.Io.Csv.File.{
  CsvDatasetReader, Measurement, line_measurement, next_measurement, next_found, count_outcome,
  stop_at, next_from, next, dataset_next, csv_dataset, make_dataset_reader,
}
use falcon_guide.App.Session.{Parts, Session, completed, returned, Sockets}
use falcon_guide.App.Session.Runs.{Feeds, replay_rounds, replay_completes}

module _ {ℓ} {D V C P : Type ℓ} (numbers : CsvNumbers D V C P)
    (lines_of : List ℕ → Option (List (List ℕ))) where
  abbrev with_first :
      Option (Measurement numbers lines_of)
      → List (Measurement numbers lines_of)
      → List (Measurement numbers lines_of)
  with_first none ms = ms
  with_first (some m) ms = m ∷ ms

  -- The measurements of the lines that give one.
  abbrev pub measurements_in : List (List ℕ) → List (Measurement numbers lines_of)
  measurements_in [] = []
  measurements_in (line ∷ lines) =
      with_first (line_measurement numbers lines_of line) (measurements_in lines)

  -- A reader that is open and sound, with these lines left.
  abbrev pub at_lines : CsvDatasetReader D → List (List ℕ) → CsvDatasetReader D
  at_lines s lines = record s { reader = record s.reader { file = some lines; bad = false } }

module _ {ℓ} {D V C P N E S : Type ℓ} (numbers : CsvNumbers D V C P)
    (lines_of : List ℕ → Option (List (List ℕ)))
    (ops : INavigationEstimator D (Measurement numbers lines_of) E S) (build : N → E)
    (sockets : Sockets) where
  abbrev pub csv_parts : Parts D N (Measurement numbers lines_of) E S (CsvDatasetReader D)
  csv_parts = record {
    ops = ops;
    files = csv_dataset numbers lines_of;
    make_reader = λ c. make_dataset_reader numbers lines_of c.type c.path;
    build = build;
    sockets = sockets;
  }

  Feeds-next :
      {n : ℕ} {r q r' : CsvDatasetReader D} {ms : List (Measurement numbers lines_of)}
      → dataset_next numbers lines_of q ≡ dataset_next numbers lines_of r
      → Feeds csv_parts n r ms r'
      → Feeds csv_parts n q ms r'
  unfolding csv_dataset
  Feeds-next e (Feeds.ends a b) = Feeds.ends (e ∙ a) b
  Feeds-next e (Feeds.gives a b c f) = Feeds.gives (e ∙ a) b c f
  Feeds-next e (Feeds.skips a b f) = Feeds.skips (e ∙ a) b f

  abbrev Fed : CsvDatasetReader D → List (List ℕ) → List (Measurement numbers lines_of) → Type ℓ
  Fed s lines ms =
      (r : CsvDatasetReader D) × Feeds csv_parts (suc (length ms))
        (at_lines numbers lines_of s lines) ms r

  next_found-lines :
      (s : CsvDatasetReader D) (ls ks : List (List ℕ))
      (o : Option (Measurement numbers lines_of × List (List ℕ)))
      → count_outcome numbers lines_of s.count
          (next_found numbers lines_of (at_lines numbers lines_of s ls).reader o)
        ≡ count_outcome numbers lines_of s.count
            (next_found numbers lines_of (at_lines numbers lines_of s ks).reader o)
  unfolding next_found
  next_found-lines s ls ks none = refl
  next_found-lines s ls ks (some (m, rest)) = refl

  -- `Next` with these lines left, from what the loop finds.
  abbrev found :
      CsvDatasetReader D
      → List (List ℕ)
      → Option (Measurement numbers lines_of × List (List ℕ))
      → CsvDatasetReader D × ReadOutcome (Measurement numbers lines_of)
  found s ls o =
      count_outcome numbers lines_of s.count
        (next_found numbers lines_of (at_lines numbers lines_of s ls).reader o)

  feeds-line :
      (line : List ℕ) (lines : List (List ℕ)) (o : Option (Measurement numbers lines_of))
      (s : CsvDatasetReader D)
      → line_measurement numbers lines_of line ≡ o
      → ((t : CsvDatasetReader D) → Fed t lines (measurements_in numbers lines_of lines))
      → Fed s
          (line ∷ lines)
          (with_first numbers lines_of o (measurements_in numbers lines_of lines))
  unfolding csv_dataset dataset_next next next_from next_found next_measurement
  feeds-line line lines none s e rest =
      let (r, f) = rest s in
      let later = next_measurement numbers lines_of lines in
      (
        r,
        Feeds-next
            (ap (λ o. found s (line ∷ lines) (stop_at numbers lines_of o lines later)) e
              ∙ next_found-lines s (line ∷ lines) lines later)
            f,
      )
  feeds-line line lines (some m) s e rest =
      let (r, f) = rest (found s (line ∷ lines) (some (m, lines))).0 in
      let later = next_measurement numbers lines_of lines in
      (
        r,
        Feeds.gives (ap (λ o. found s (line ∷ lines) (stop_at numbers lines_of o lines later)) e)
            refl refl f,
      )

  feeds :
      (lines : List (List ℕ)) (s : CsvDatasetReader D)
      → Fed s lines (measurements_in numbers lines_of lines)
  unfolding csv_dataset dataset_next next next_from next_found next_measurement
  feeds [] s = (_, Feeds.ends refl refl)
  feeds (line ∷ lines) s =
      feeds-line line lines (line_measurement numbers lines_of line) s refl (feeds lines)

  -- An active session that is not paused, over an open CSV file, completes its replay after one round for
  -- each measurement of the lines that are left and one more, and has then offered the pipeline these
  -- measurements in the order of the lines; lines that give none are passed over.
  pub replay_file :
      (lines : List (List ℕ))
      (s : Session D N (Measurement numbers lines_of) E S (CsvDatasetReader D))
      → s.reader.reader.file ≡ some lines
      → s.reader.reader.bad ≡ false
      → s.active ≡ true
      → s.is_paused ≡ false
      → let ms = measurements_in numbers lines_of lines in
        let t = replay_rounds csv_parts (suc (length ms)) s in
        (t.status ≡ completed) × (t.thread ≡ returned) × (t.offered ≡ s.offered ++ ms)
  replay_file lines s o b a p =
      let (r, f) = feeds lines s.reader in
      let here : at_lines numbers lines_of s.reader lines ≡ s.reader = rw (sym o, sym b) in
      let over =
        replay_completes csv_parts s
          (subst
            (λ q.
              Feeds csv_parts (suc (length (measurements_in numbers lines_of lines))) q
                (measurements_in numbers lines_of lines) r)
            here f)
          a p in
      (over.0, over.1, over.3)
