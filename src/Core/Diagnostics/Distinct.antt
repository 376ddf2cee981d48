-- ===== src/Core/Diagnostics/Distinct.antt =====
-- The strings of an enumeration tell its values apart: they can be read back.
use falcon_guide.Prelude.{ℕ, ◌≡◌, refl, List, if◌then◌else◌}
use falcon_guide.Prelude.Bytes.{codes, same}
use falcon_guide.Core.Enums.{
  NavigationStatus, EstimatorMode, SensorHealth, MeasurementValidity, GnssFixType,
  GnssConstellation, EstimatorBackend, AidingSource,
}
use falcon_guide.Estimation.Interface.{EstimatorUpdateResult}
use falcon_guide.Core.Diagnostics.{
  navigation_status_string, estimator_mode_string, sensor_health_string,
  measurement_validity_string, gnss_fix_type_string, gnss_constellation_string,
  estimator_backend_string, aiding_source_string, estimator_update_result_string,
}

abbrev pub read_navigation_status : List ℕ → NavigationStatus
read_navigation_status x =
    if same x (codes "Unknown")
    then NavigationStatus.unknown
    else if same x (codes "NotInitialized")
    then NavigationStatus.not_initialized
    else if same x (codes "Initializing")
    then NavigationStatus.initializing
    else if same x (codes "Nominal")
    then NavigationStatus.nominal
    else if same x (codes "Degraded")
    then NavigationStatus.degraded
    else if same x (codes "DeadReckoning")
    then NavigationStatus.dead_reckoning
    else NavigationStatus.fault

read_navigation_status-navigation_status_string :
    (x : NavigationStatus) → read_navigation_status (navigation_status_string x) ≡ x
unfolding navigation_status_string
read_navigation_status-navigation_status_string NavigationStatus.unknown = refl
read_navigation_status-navigation_status_string NavigationStatus.not_initialized = refl
read_navigation_status-navigation_status_string NavigationStatus.initializing = refl
read_navigation_status-navigation_status_string NavigationStatus.nominal = refl
read_navigation_status-navigation_status_string NavigationStatus.degraded = refl
read_navigation_status-navigation_status_string NavigationStatus.dead_reckoning = refl
read_navigation_status-navigation_status_string NavigationStatus.fault = refl

abbrev pub read_estimator_mode : List ℕ → EstimatorMode
read_estimator_mode x =
    if same x (codes "Unknown")
    then EstimatorMode.unknown
    else if same x (codes "InertialOnly")
    then EstimatorMode.inertial_only
    else if same x (codes "VisualInertial")
    then EstimatorMode.visual_inertial
    else if same x (codes "GnssInertial")
    then EstimatorMode.gnss_inertial
    else if same x (codes "VisualInertialGnss")
    then EstimatorMode.visual_inertial_gnss
    else EstimatorMode.multi_sensor_fusion

read_estimator_mode-estimator_mode_string :
    (x : EstimatorMode) → read_estimator_mode (estimator_mode_string x) ≡ x
unfolding estimator_mode_string
read_estimator_mode-estimator_mode_string EstimatorMode.unknown = refl
read_estimator_mode-estimator_mode_string EstimatorMode.inertial_only = refl
read_estimator_mode-estimator_mode_string EstimatorMode.visual_inertial = refl
read_estimator_mode-estimator_mode_string EstimatorMode.gnss_inertial = refl
read_estimator_mode-estimator_mode_string EstimatorMode.visual_inertial_gnss = refl
read_estimator_mode-estimator_mode_string EstimatorMode.multi_sensor_fusion = refl

abbrev pub read_sensor_health : List ℕ → SensorHealth
read_sensor_health x =
    if same x (codes "Unknown")
    then SensorHealth.unknown
    else if same x (codes "Healthy")
    then SensorHealth.healthy
    else if same x (codes "Degraded")
    then SensorHealth.degraded
    else if same x (codes "Rejected")
    then SensorHealth.rejected
    else if same x (codes "Missing")
    then SensorHealth.missing
    else if same x (codes "Stale")
    then SensorHealth.stale
    else SensorHealth.fault

read_sensor_health-sensor_health_string :
    (x : SensorHealth) → read_sensor_health (sensor_health_string x) ≡ x
unfolding sensor_health_string
read_sensor_health-sensor_health_string SensorHealth.unknown = refl
read_sensor_health-sensor_health_string SensorHealth.healthy = refl
read_sensor_health-sensor_health_string SensorHealth.degraded = refl
read_sensor_health-sensor_health_string SensorHealth.rejected = refl
read_sensor_health-sensor_health_string SensorHealth.missing = refl
read_sensor_health-sensor_health_string SensorHealth.stale = refl
read_sensor_health-sensor_health_string SensorHealth.fault = refl

abbrev pub read_measurement_validity : List ℕ → MeasurementValidity
read_measurement_validity x =
    if same x (codes "Valid")
    then MeasurementValidity.valid
    else if same x (codes "Saturated")
    then MeasurementValidity.saturated
    else if same x (codes "Dropped")
    then MeasurementValidity.dropped
    else if same x (codes "OutOfOrder")
    then MeasurementValidity.out_of_order
    else MeasurementValidity.unknown

read_measurement_validity-measurement_validity_string :
    (x : MeasurementValidity) → read_measurement_validity (measurement_validity_string x) ≡ x
unfolding measurement_validity_string
read_measurement_validity-measurement_validity_string MeasurementValidity.valid = refl
read_measurement_validity-measurement_validity_string MeasurementValidity.saturated = refl
read_measurement_validity-measurement_validity_string MeasurementValidity.dropped = refl
read_measurement_validity-measurement_validity_string MeasurementValidity.out_of_order = refl
read_measurement_validity-measurement_validity_string MeasurementValidity.unknown = refl

abbrev pub read_gnss_fix_type : List ℕ → GnssFixType
read_gnss_fix_type x =
    if same x (codes "NoFix")
    then GnssFixType.no_fix
    else if same x (codes "Single")
    then GnssFixType.single
    else if same x (codes "Differential")
    then GnssFixType.differential
    else if same x (codes "RtkFloat")
    then GnssFixType.rtk_float
    else if same x (codes "RtkFixed")
    then GnssFixType.rtk_fixed
    else GnssFixType.precise_point_positioning

read_gnss_fix_type-gnss_fix_type_string :
    (x : GnssFixType) → read_gnss_fix_type (gnss_fix_type_string x) ≡ x
unfolding gnss_fix_type_string
read_gnss_fix_type-gnss_fix_type_string GnssFixType.no_fix = refl
read_gnss_fix_type-gnss_fix_type_string GnssFixType.single = refl
read_gnss_fix_type-gnss_fix_type_string GnssFixType.differential = refl
read_gnss_fix_type-gnss_fix_type_string GnssFixType.rtk_float = refl
read_gnss_fix_type-gnss_fix_type_string GnssFixType.rtk_fixed = refl
read_gnss_fix_type-gnss_fix_type_string GnssFixType.precise_point_positioning = refl

abbrev pub read_gnss_constellation : List ℕ → GnssConstellation
read_gnss_constellation x =
    if same x (codes "GPS")
    then GnssConstellation.gps
    else if same x (codes "GLONASS")
    then GnssConstellation.glonass
    else if same x (codes "Galileo")
    then GnssConstellation.galileo
    else if same x (codes "BeiDou")
    then GnssConstellation.bei_dou
    else if same x (codes "QZSS")
    then GnssConstellation.qzss
    else if same x (codes "SBAS")
    then GnssConstellation.sbas
    else GnssConstellation.unknown

read_gnss_constellation-gnss_constellation_string :
    (x : GnssConstellation) → read_gnss_constellation (gnss_constellation_string x) ≡ x
unfolding gnss_constellation_string
read_gnss_constellation-gnss_constellation_string GnssConstellation.gps = refl
read_gnss_constellation-gnss_constellation_string GnssConstellation.glonass = refl
read_gnss_constellation-gnss_constellation_string GnssConstellation.galileo = refl
read_gnss_constellation-gnss_constellation_string GnssConstellation.bei_dou = refl
read_gnss_constellation-gnss_constellation_string GnssConstellation.qzss = refl
read_gnss_constellation-gnss_constellation_string GnssConstellation.sbas = refl
read_gnss_constellation-gnss_constellation_string GnssConstellation.unknown = refl

abbrev pub read_estimator_backend : List ℕ → EstimatorBackend
read_estimator_backend x =
    if same x (codes "Unknown")
    then EstimatorBackend.unknown
    else if same x (codes "EKF")
    then EstimatorBackend.ekf
    else if same x (codes "CeresSlidingWindow")
    then EstimatorBackend.ceres_sliding_window
    else if same x (codes "GtsamFactorGraph")
    then EstimatorBackend.gtsam_factor_graph
    else EstimatorBackend.custom

read_estimator_backend-estimator_backend_string :
    (x : EstimatorBackend) → read_estimator_backend (estimator_backend_string x) ≡ x
unfolding estimator_backend_string
read_estimator_backend-estimator_backend_string EstimatorBackend.unknown = refl
read_estimator_backend-estimator_backend_string EstimatorBackend.ekf = refl
read_estimator_backend-estimator_backend_string EstimatorBackend.ceres_sliding_window = refl
read_estimator_backend-estimator_backend_string EstimatorBackend.gtsam_factor_graph = refl
read_estimator_backend-estimator_backend_string EstimatorBackend.custom = refl

abbrev pub read_aiding_source : List ℕ → AidingSource
read_aiding_source x =
    if same x (codes "Unknown")
    then AidingSource.unknown
    else if same x (codes "VisualOdometry")
    then AidingSource.visual_odometry
    else if same x (codes "GeoReference")
    then AidingSource.geo_reference
    else if same x (codes "TERCOM")
    then AidingSource.terrain_contour_matching
    else if same x (codes "ExternalSLAM")
    then AidingSource.external_slam
    else if same x (codes "SceneMatching")
    then AidingSource.scene_matching
    else if same x (codes "FeatureBasedNav")
    then AidingSource.feature_based_navigation
    else AidingSource.radio_navigation

read_aiding_source-aiding_source_string :
    (x : AidingSource) → read_aiding_source (aiding_source_string x) ≡ x
unfolding aiding_source_string
read_aiding_source-aiding_source_string AidingSource.unknown = refl
read_aiding_source-aiding_source_string AidingSource.visual_odometry = refl
read_aiding_source-aiding_source_string AidingSource.geo_reference = refl
read_aiding_source-aiding_source_string AidingSource.terrain_contour_matching = refl
read_aiding_source-aiding_source_string AidingSource.external_slam = refl
read_aiding_source-aiding_source_string AidingSource.scene_matching = refl
read_aiding_source-aiding_source_string AidingSource.feature_based_navigation = refl
read_aiding_source-aiding_source_string AidingSource.radio_navigation = refl

abbrev pub read_estimator_update_result : List ℕ → EstimatorUpdateResult
read_estimator_update_result x =
    if same x (codes "Accepted")
    then EstimatorUpdateResult.accepted
    else if same x (codes "Buffered")
    then EstimatorUpdateResult.buffered
    else if same x (codes "Rejected")
    then EstimatorUpdateResult.rejected
    else if same x (codes "OutOfOrder")
    then EstimatorUpdateResult.out_of_order
    else if same x (codes "NotInitialized")
    then EstimatorUpdateResult.not_initialized
    else EstimatorUpdateResult.backend_error

read_estimator_update_result-estimator_update_result_string :
    (x : EstimatorUpdateResult)
    → read_estimator_update_result (estimator_update_result_string x) ≡ x
unfolding estimator_update_result_string
read_estimator_update_result-estimator_update_result_string EstimatorUpdateResult.accepted = refl
read_estimator_update_result-estimator_update_result_string EstimatorUpdateResult.buffered = refl
read_estimator_update_result-estimator_update_result_string EstimatorUpdateResult.rejected = refl
read_estimator_update_result-estimator_update_result_string EstimatorUpdateResult.out_of_order =
    refl
read_estimator_update_result-estimator_update_result_string EstimatorUpdateResult.not_initialized =
    refl
read_estimator_update_result-estimator_update_result_string EstimatorUpdateResult.backend_error =
    refl

-- The string of a value tells which it is, in each of the nine enumerations: the value is read back from
-- its string.
pub strings_readable :
    (s : NavigationStatus) (m : EstimatorMode) (h : SensorHealth) (v : MeasurementValidity)
    (f : GnssFixType) (c : GnssConstellation) (b : EstimatorBackend) (a : AidingSource)
    (r : EstimatorUpdateResult)
    → (read_navigation_status (navigation_status_string s) ≡ s)
      × (read_estimator_mode (estimator_mode_string m) ≡ m)
      × (read_sensor_health (sensor_health_string h) ≡ h)
      × (read_measurement_validity (measurement_validity_string v) ≡ v)
      × (read_gnss_fix_type (gnss_fix_type_string f) ≡ f)
      × (read_gnss_constellation (gnss_constellation_string c) ≡ c)
      × (read_estimator_backend (estimator_backend_string b) ≡ b)
      × (read_aiding_source (aiding_source_string a) ≡ a)
      × (read_estimator_update_result (estimator_update_result_string r) ≡ r)
strings_readable s m h v f c b a r = (
  read_navigation_status-navigation_status_string s,
  read_estimator_mode-estimator_mode_string m,
  read_sensor_health-sensor_health_string h,
  read_measurement_validity-measurement_validity_string v,
  read_gnss_fix_type-gnss_fix_type_string f,
  read_gnss_constellation-gnss_constellation_string c,
  read_estimator_backend-estimator_backend_string b,
  read_aiding_source-aiding_source_string a,
  read_estimator_update_result-estimator_update_result_string r,
)
