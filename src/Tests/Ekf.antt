-- ===== src/Tests/Ekf.antt =====
-- Tests of the filter's layout.
use falcon_guide.Prelude.{any, ◌≤◌, ◌≡◌, refl, true, false}
use falcon_guide.Estimation.Ekf.Layout.{
  gnss_clock, baro_bias, StateSegment, get, has, register, make_standard_layout,
  make_tightly_coupled_layout, build_layout,
}
use falcon_guide.Estimation.Ekf.Layout.Ranges.{Apart, segments-Apart}
use falcon_guide.Prelude.Int.{ℤ, pos}
use falcon_guide.Tests.Json.{whole_literal}
use falcon_guide.Core.Enums.{MeasurementValidity}
use falcon_guide.Core.Sensors.{DvlReference}
use falcon_guide.Estimation.Measurement.{SensorMeasurement}
use falcon_guide.Estimation.Config.{NavigationSystemConfig, tightly_coupled, default_navigation}
use falcon_guide.Estimation.Ekf.Factory.{ekf_models, can_handle}
use falcon_guide.Estimation.Ekf.Factory.Clock.{layout_of, is_tightly_coupled, has_clock}
use falcon_guide.Estimation.Ukf.Factory.{build_estimator, ukf_models, ukf_can_handle}
use falcon_guide.Estimation.Ukf.Factory.Same.{for_ukf, same_handled}
use falcon_guide.Estimation.Ekf.Factory.Unique.{handlers}
use falcon_guide.Estimation.Ukf.Factory.Unique.{handlers_in, one_handler}

abbrev clock_segment : StateSegment
clock_segment = record { offset = 15; size = 2 }

abbrev baro_segment : StateSegment
baro_segment = record { offset = 17; size = 1 }

segments-Apart_example :
    Apart clock_segment baro_segment × (17 ≤ (build_layout true true).total_size)
unfolding build_layout register make_standard_layout get
segments-Apart_example =
    segments-Apart true true gnss_clock baro_bias clock_segment baro_segment refl refl refl

-- The layout that the option gives is the tightly coupled one.
clock_layout : build_layout true false ≡ make_tightly_coupled_layout
unfolding build_layout make_tightly_coupled_layout register make_standard_layout
clock_layout = refl

no_clock : has (build_layout false true) gnss_clock ≡ false
unfolding has get build_layout register make_standard_layout
no_clock = refl

abbrev defaults : NavigationSystemConfig ℤ
defaults = default_navigation

abbrev full_config : NavigationSystemConfig ℤ
full_config = record defaults {
  gnss = record defaults.gnss { enabled = true; mode = tightly_coupled };
  barometer = record defaults.barometer { enabled = true };
  magnetometer = record defaults.magnetometer { enabled = true };
  star_tracker = record defaults.star_tracker { enabled = true };
  wheel_odometry = record defaults.wheel_odometry { enabled = true };
  radar_altimeter = record defaults.radar_altimeter { enabled = true };
  range_finder = record defaults.range_finder { enabled = true };
  optical_flow = record defaults.optical_flow { enabled = true };
  dvl = record defaults.dvl { enabled = true };
  echo_sounder = record defaults.echo_sounder { enabled = true };
  airspeed = record defaults.airspeed { enabled = true };
  external_pose = record defaults.external_pose { enabled = true };
  external_velocity = record defaults.external_velocity { enabled = true };
  external_odometry = record defaults.external_odometry { enabled = true };
  aiding_solution = record defaults.aiding_solution { enabled = true };
}

abbrev dvl_measurement : SensorMeasurement ℤ ℤ ℤ ℤ
dvl_measurement = SensorMeasurement.dvl (record {
  timestamp = record {
    steady = record { value = pos 0 };
    gps = record { week = pos 0; seconds_of_week = pos 0 };
    has_steady = false;
    has_gps = false;
  };
  velocity_mps = pos 0;
  velocity_covariance_m2ps2 = pos 0;
  reference = DvlReference.bottom_track;
  validity = MeasurementValidity.valid;
})

one_handler_example : handlers_in full_config dvl_measurement (build_estimator full_config) ≤ 1
one_handler_example = one_handler full_config dvl_measurement

-- The bound is met.
dvl_handled : handlers dvl_measurement (ekf_models full_config) ≡ 1
unfolding ekf_models can_handle
dvl_handled = refl

has_clock_example :
    has (layout_of full_config) gnss_clock ≡ any is_tightly_coupled (ekf_models full_config)
has_clock_example = has_clock full_config

same_handled_example :
    any (λ model. ukf_can_handle model dvl_measurement) (ukf_models full_config)
    ≡ any (λ model. can_handle model dvl_measurement) (ekf_models (for_ukf full_config))
same_handled_example = same_handled full_config dvl_measurement
