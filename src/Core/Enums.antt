-- ===== src/Core/Enums.antt =====
-- The enumerations of navigation_state.hpp, sensors/common.hpp, sensors/gnss.hpp, sensors/aiding.hpp
-- (under src/core/include/falconguide/core/) and of estimator_interface.hpp.

pub data NavigationStatus : Type 0 where
  unknown not_initialized initializing nominal degraded dead_reckoning fault : NavigationStatus

pub data EstimatorMode : Type 0 where
  unknown inertial_only visual_inertial gnss_inertial visual_inertial_gnss multi_sensor_fusion :
      EstimatorMode

pub data SensorHealth : Type 0 where
  unknown healthy degraded rejected missing stale fault : SensorHealth

pub data MeasurementValidity : Type 0 where
  valid saturated dropped out_of_order unknown : MeasurementValidity

pub data GnssFixType : Type 0 where
  no_fix single differential rtk_float rtk_fixed precise_point_positioning : GnssFixType

pub data GnssConstellation : Type 0 where
  gps glonass galileo bei_dou qzss sbas unknown : GnssConstellation

pub data EstimatorBackend : Type 0 where
  unknown ekf ceres_sliding_window gtsam_factor_graph custom : EstimatorBackend

pub data AidingSource : Type 0 where
  unknown visual_odometry geo_reference terrain_contour_matching external_slam scene_matching
        feature_based_navigation radio_navigation :
      AidingSource
