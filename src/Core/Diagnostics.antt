-- ===== src/Core/Diagnostics.antt =====
-- src/core/include/falconguide/core/diagnostics.hpp: `ToString` of each enumeration.
pub mod Distinct
use falcon_guide.Prelude.{ℕ, List}
use falcon_guide.Prelude.Bytes.{codes}
use falcon_guide.Core.Enums.{
  NavigationStatus, EstimatorMode, SensorHealth, MeasurementValidity, GnssFixType,
  GnssConstellation, EstimatorBackend, AidingSource,
}
use falcon_guide.Estimation.Interface.{EstimatorUpdateResult}

unfoldable pub navigation_status_string : NavigationStatus → List ℕ
navigation_status_string NavigationStatus.unknown = codes "Unknown"
navigation_status_string NavigationStatus.not_initialized = codes "NotInitialized"
navigation_status_string NavigationStatus.initializing = codes "Initializing"
navigation_status_string NavigationStatus.nominal = codes "Nominal"
navigation_status_string NavigationStatus.degraded = codes "Degraded"
navigation_status_string NavigationStatus.dead_reckoning = codes "DeadReckoning"
navigation_status_string NavigationStatus.fault = codes "Fault"

unfoldable pub estimator_mode_string : EstimatorMode → List ℕ
estimator_mode_string EstimatorMode.unknown = codes "Unknown"
estimator_mode_string EstimatorMode.inertial_only = codes "InertialOnly"
estimator_mode_string EstimatorMode.visual_inertial = codes "VisualInertial"
estimator_mode_string EstimatorMode.gnss_inertial = codes "GnssInertial"
estimator_mode_string EstimatorMode.visual_inertial_gnss = codes "VisualInertialGnss"
estimator_mode_string EstimatorMode.multi_sensor_fusion = codes "MultiSensorFusion"

unfoldable pub sensor_health_string : SensorHealth → List ℕ
sensor_health_string SensorHealth.unknown = codes "Unknown"
sensor_health_string SensorHealth.healthy = codes "Healthy"
sensor_health_string SensorHealth.degraded = codes "Degraded"
sensor_health_string SensorHealth.rejected = codes "Rejected"
sensor_health_string SensorHealth.missing = codes "Missing"
sensor_health_string SensorHealth.stale = codes "Stale"
sensor_health_string SensorHealth.fault = codes "Fault"

unfoldable pub measurement_validity_string : MeasurementValidity → List ℕ
measurement_validity_string MeasurementValidity.valid = codes "Valid"
measurement_validity_string MeasurementValidity.saturated = codes "Saturated"
measurement_validity_string MeasurementValidity.dropped = codes "Dropped"
measurement_validity_string MeasurementValidity.out_of_order = codes "OutOfOrder"
measurement_validity_string MeasurementValidity.unknown = codes "Unknown"

unfoldable pub gnss_fix_type_string : GnssFixType → List ℕ
gnss_fix_type_string GnssFixType.no_fix = codes "NoFix"
gnss_fix_type_string GnssFixType.single = codes "Single"
gnss_fix_type_string GnssFixType.differential = codes "Differential"
gnss_fix_type_string GnssFixType.rtk_float = codes "RtkFloat"
gnss_fix_type_string GnssFixType.rtk_fixed = codes "RtkFixed"
gnss_fix_type_string GnssFixType.precise_point_positioning = codes "PrecisePointPositioning"

unfoldable pub gnss_constellation_string : GnssConstellation → List ℕ
gnss_constellation_string GnssConstellation.gps = codes "GPS"
gnss_constellation_string GnssConstellation.glonass = codes "GLONASS"
gnss_constellation_string GnssConstellation.galileo = codes "Galileo"
gnss_constellation_string GnssConstellation.bei_dou = codes "BeiDou"
gnss_constellation_string GnssConstellation.qzss = codes "QZSS"
gnss_constellation_string GnssConstellation.sbas = codes "SBAS"
gnss_constellation_string GnssConstellation.unknown = codes "Unknown"

unfoldable pub estimator_backend_string : EstimatorBackend → List ℕ
estimator_backend_string EstimatorBackend.unknown = codes "Unknown"
estimator_backend_string EstimatorBackend.ekf = codes "EKF"
estimator_backend_string EstimatorBackend.ceres_sliding_window = codes "CeresSlidingWindow"
estimator_backend_string EstimatorBackend.gtsam_factor_graph = codes "GtsamFactorGraph"
estimator_backend_string EstimatorBackend.custom = codes "Custom"

unfoldable pub aiding_source_string : AidingSource → List ℕ
aiding_source_string AidingSource.unknown = codes "Unknown"
aiding_source_string AidingSource.visual_odometry = codes "VisualOdometry"
aiding_source_string AidingSource.geo_reference = codes "GeoReference"
aiding_source_string AidingSource.terrain_contour_matching = codes "TERCOM"
aiding_source_string AidingSource.external_slam = codes "ExternalSLAM"
aiding_source_string AidingSource.scene_matching = codes "SceneMatching"
aiding_source_string AidingSource.feature_based_navigation = codes "FeatureBasedNav"
aiding_source_string AidingSource.radio_navigation = codes "RadioNavigation"

unfoldable pub estimator_update_result_string : EstimatorUpdateResult → List ℕ
estimator_update_result_string EstimatorUpdateResult.accepted = codes "Accepted"
estimator_update_result_string EstimatorUpdateResult.buffered = codes "Buffered"
estimator_update_result_string EstimatorUpdateResult.rejected = codes "Rejected"
estimator_update_result_string EstimatorUpdateResult.out_of_order = codes "OutOfOrder"
estimator_update_result_string EstimatorUpdateResult.not_initialized = codes "NotInitialized"
estimator_update_result_string EstimatorUpdateResult.backend_error = codes "BackendError"
