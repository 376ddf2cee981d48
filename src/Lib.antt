-- ===== src/Lib.antt =====
-- FalconGuide, the parts of it that decide: time, buffers, queues and threads, sentences and files, and the
-- session that drives them. Paths are from the repository's root; `CORE` is
-- src/core/include/falconguide/core, and likewise `IO` and `ESTIMATION`.
--
-- A session (src/app/src/session.cpp) owns a navigation system, a dataset reader and two servers. Its replay
-- thread reads a measurement at a time and pushes it to the pipeline of the navigation system. The pipeline
-- (src/estimation/src/estimator_pipeline.cpp) holds a bounded queue and a worker thread, which gives each
-- measurement to an estimator and tells the observers of what it accepts. Sensor logs are CSV files; NMEA
-- sentences go in and out.
--
--   Prelude          shared names, lists over the native numbers, integers, text as bytes.
--   Core.Double      what time needs of `double`: a parameter, and what IEEE 754 says of its order.
--   Core.Time        CORE/time.hpp and time_helpers.hpp.
--   Core.Buffer      CORE/buffers/time_ordered_buffer.hpp: each method, and the loops as recursion.
--   Core.Enums, Core.Diagnostics, Core.Gnss
--                    enumerations and structs of CORE, and CORE/diagnostics.hpp.
--   Estimation.Interface, Estimation.Measurement
--                    ESTIMATION/estimator_interface.hpp: results, reports, the variant of measurements.
--   Estimation.Queue ESTIMATION/measurement_queue.hpp: each method is one step, under the mutex.
--   Estimation.Pipeline
--                    src/estimation/src/estimator_pipeline.cpp: each access to a shared member is one step,
--                    and `Steps` lets producers, the caller of Start and Stop, and the worker take turns.
--   Estimation.Ekf.Layout
--                    ESTIMATION/backends/ekf/state_layout.hpp and `BuildLayout`.
--   Estimation.Config
--                    ESTIMATION/navigation_system_config.hpp and the options that it holds, with their
--                    initial values.
--   Estimation.Ekf.Factory, Estimation.Ukf.Factory
--                    `BuildEkfEstimator`, `BuildUkfEstimator` and `BuildEstimator` of
--                    src/estimation/src/navigation_system.cpp, and `CanHandle` of the models.
--   Estimation.Ekf.Estimator
--                    src/estimation/src/backends/ekf/ekf_estimator.cpp: Propagate, Fuse, Initialise and Output
--                    are its private methods, and Calls the others. Loop, Aiding, Starting, Invariant, Keeps
--                    and Runs are proofs.
--   Estimation.Ekf.Models
--                    `Apply` of eleven of the models of src/estimation/src/backends/ekf/measurement_models,
--                    and in Proper what they keep.
--   Core.Numerics    what the filter uses of Eigen and of the geometry of CORE: a parameter.
--   Io.Nmea          IO/nmea: Sentence is nmea_sentence.hpp, and Gga, Vtg and Rmc are named as their files.
--   Io.Reader        the interface of readers, of IO/measurement_reader.hpp and
--                    src/app/include/falconguide/app/dataset_reader.hpp.
--   Io.Csv           src/io/src/csv/csv_measurement_reader.cpp; Io.Csv.File has its methods and those of
--                    src/app/src/dataset_reader.cpp.
--   App.Config       src/app/src/config_json.cpp: Json is the interface of the JSON library, and Sensors, Nav
--                    and Document read and write the parts of a configuration.
--   App.Session      src/app/src/session.cpp: a record of the members and one function per method. Steps is
--                    what may be called in which order; Fits and Held are its invariants; Commands has the
--                    handlers of both servers.
--   App.Replay       a session over a CSV file.
--   Tests            runs at concrete inputs.
--
-- State is passed explicitly. Threads are interleavings of steps. In the session one thread at a time calls
-- the methods. The others are the replay thread and the worker, whose rounds stand between two methods, and
-- in `Pause` and `Resume` between the test of the status and what follows it; a round of the replay thread may
-- have made its tests before a `Pause`. A call ends in a return, an exception or `std::terminate`, or does not
-- end: `returns` of the estimator interface says whether `AddMeasurement` returns, and the threads take no
-- step over a call that does not; a command of an IPC client that broadcasts `hangs`, since the server holds
-- the mutex of its clients meanwhile.
--
-- Loops are structural recursion, but for two that wait: the worker and the replay loop are counted in rounds,
-- and the theorems say how many are enough, from the length of the queue and of the file. The loop by which
-- the filter splits a gap of time takes fuel, which a function of the gap gives, and `none` is a call that
-- does not return; IsShrinking says what makes the fuel enough, for gaps up to a limit.
--
-- Floating-point numbers, vectors and matrices, conversions between numbers and text, JSON values and the file
-- system are parameters, with what is assumed of them as named hypotheses (IsOrdered, IsPrinted, IsJson).
-- Differences of time stamps are taken not to overflow. Not modelled: five of the models of the EKF and the
-- numerics of the UKF; the Ceres and GTSAM backends, the servers (but for that mutex), the user interface and
-- the logger, which are glue to other libraries; the schema of the configuration, a constant, and its file
-- access; the timing of the replay, which only delays it.
pub mod Prelude
pub mod Core
pub mod Estimation
pub mod Io
pub mod App
mod Tests
