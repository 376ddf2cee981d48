-- ===== src/Estimation/Ekf/Models/Proper.antt =====
-- What `Apply` of every model keeps: the nominal state, and all of the filter where it does not accept.
use falcon_guide.Prelude.{
  ◌≡◌, refl, subst, Bool, true, false, ◌&&◌, Bool-cases, if_cases, Option, none, some, inl, inr,
}
use falcon_guide.Core.Double.{Double, Literal}
use falcon_guide.Core.Enums.{MeasurementValidity}
use falcon_guide.Core.Gnss.{GnssSolution}
use falcon_guide.Core.Numerics.{Numerics}
use falcon_guide.Estimation.Config.{OpticalFlowOptions, BarometerOptions, GnssLooselyCoupledOptions}
use falcon_guide.Core.Sensors.{OpticalFlowMeasurement}
use falcon_guide.Estimation.Interface.{rejected}
use falcon_guide.Estimation.Measurement.{SensorMeasurement, BarometerMeasurement}
use falcon_guide.Estimation.Ekf.Factory.{
  Model, barometer, radar_altimeter, range_finder, echo_sounder, wheel_odometry, external_velocity,
  dvl, airspeed, optical_flow, magnetometer, gnss_loosely_coupled,
}
use falcon_guide.Estimation.Ekf.Estimator.{EkfState, Applied}
use falcon_guide.Estimation.Ekf.Estimator.Initialise.{is_valid, usable_fix}
use falcon_guide.Estimation.Ekf.Estimator.Fuse.{ekf_update, joseph_update}
use falcon_guide.Estimation.Ekf.Estimator.Aiding.{
  is_accepted, some_inj, has_fix, is_sound, is_valid-is_sound, usable_fix_lem,
}
use falcon_guide.Estimation.Ekf.Models.Shared.{unchanged, where_valid, reject_if, height_update}
use falcon_guide.Estimation.Ekf.Models.Height.{
  apply_barometer, apply_radar_altimeter, apply_range_finder, apply_echo_sounder, apply_altitude,
  fuse_altitude,
}
use falcon_guide.Estimation.Ekf.Models.Velocity.{
  apply_wheel_odometry, apply_external_velocity, apply_dvl, apply_airspeed, apply_optical_flow,
  fuse_body_velocity, fuse_flow,
}
use falcon_guide.Estimation.Ekf.Models.Field.{apply_magnetometer}
use falcon_guide.Estimation.Ekf.Models.Position.{apply_gnss_loosely_coupled, apply_solution}
use falcon_guide.Estimation.Ekf.Models.Dispatch.{apply_known}

-- The result of `Apply` to a filter, on a measurement that is valid or not: an update, or nothing.
pub data IsProper {ℓ} {D V Q M : Type ℓ} (s : EkfState D V Q M) (valid : Bool) (r : Applied D V Q M)
    : Type ℓ where
  updated : valid ≡ true → is_accepted r.result ≡ true → r.nominal ≡ s.nominal → IsProper s valid r
  refused : is_accepted r.result ≡ false → r ≡ unchanged s r.result → IsProper s valid r

-- The source of the measurement vouches for it, and a GNSS solution has a fix.
abbrev pub is_usable {ℓ} : {D V C P : Type ℓ} → SensorMeasurement D V C P → Bool
is_usable (SensorMeasurement.barometer m) = is_sound m.validity
is_usable (SensorMeasurement.radar_altimeter m) = is_sound m.validity
is_usable (SensorMeasurement.range_finder m) = is_sound m.validity
is_usable (SensorMeasurement.echo_sounder m) = is_sound m.validity
is_usable (SensorMeasurement.wheel_odometry m) = is_sound m.validity
is_usable (SensorMeasurement.external_velocity m) = is_sound m.validity
is_usable (SensorMeasurement.dvl m) = is_sound m.validity
is_usable (SensorMeasurement.airspeed m) = is_sound m.validity
is_usable (SensorMeasurement.optical_flow m) = is_sound m.validity
is_usable (SensorMeasurement.magnetometer m) = is_sound m.validity
is_usable (SensorMeasurement.gnss_solution m) = has_fix m.fix_type && is_sound m.validity
is_usable _ = true

module _ {ℓ} {D V Q M : Type ℓ} (s : EkfState D V Q M) where
  rejected-IsProper : (b : Bool) → IsProper s b (unchanged s rejected)
  rejected-IsProper b = refused refl refl

  where_valid-IsProper :
      (v : MeasurementValidity) {r : Applied D V Q M}
      → IsProper s true r
      → IsProper s (is_valid v) (where_valid s v r)
  where_valid-IsProper v p = elim (Bool-cases (is_valid v)) [
    | inl y ↦ rw y p
    | inr y ↦ rw y (rejected-IsProper false)
  ]

  reject_if-IsProper :
      {b : Bool} (test : Bool) {r : Applied D V Q M}
      → IsProper s b r
      → IsProper s b (reject_if s test r)
  reject_if-IsProper {b} test p = if_cases (IsProper s b) test (λ h. rejected-IsProper b) (λ h. p)

module _ {ℓ} {D V Q M L : Type ℓ} ⦃d : Double D⦄ (num : Numerics D V Q M L) where
  ekf_update-IsProper :
      (s : EkfState D V Q M) (h dz r_meas : M) (gate : D)
      → IsProper s true (ekf_update num s h dz r_meas gate)
  unfolding ekf_update joseph_update
  ekf_update-IsProper s h dz r_meas gate =
      if_cases (IsProper s true) _ (λ e. rejected-IsProper s true) (λ e. updated refl refl refl)

module _ {ℓ} {D V Q M L : Type ℓ} ⦃d : Double D⦄ ⦃n : Literal D⦄ (num : Numerics D V Q M L)
    (s : EkfState D V Q M) where
  update : (h dz r_meas : M) (gate : D) → IsProper s true (ekf_update num s h dz r_meas gate)
  update = ekf_update-IsProper num s

  apply_altitude-IsProper :
      (o : BarometerOptions D) (m : BarometerMeasurement D) (z : Option D)
      → IsProper s true (apply_altitude num o s m z)
  unfolding apply_altitude fuse_altitude
  apply_altitude-IsProper o m (some z) = update _ _ _ _
  apply_altitude-IsProper o m none =
      if_cases (IsProper s true) (d.lt d.nought m.pressure_pa) (λ h. update _ _ _ _)
        (λ h. rejected-IsProper s true)

  fuse_flow-IsProper :
      (o : OpticalFlowOptions D) (m : OpticalFlowMeasurement D) (dt : Option D)
      → IsProper s true (fuse_flow num o s m dt)
  unfolding fuse_flow
  fuse_flow-IsProper o m none = rejected-IsProper s true
  fuse_flow-IsProper o m (some dt) =
      reject_if-IsProper s _ (reject_if-IsProper s _ (update _ _ _ _))

  apply_gnss-IsProper :
      (o : GnssLooselyCoupledOptions D) (m : GnssSolution D V M) (ltp : Option L)
      → IsProper s (usable_fix m) (apply_gnss_loosely_coupled num o s m ltp)
  unfolding apply_gnss_loosely_coupled apply_solution
  apply_gnss-IsProper o m none = refused refl refl
  apply_gnss-IsProper o m (some ltp) = elim (Bool-cases (usable_fix m)) [
    | inl y ↦
        rw y (
          if_cases (IsProper s true) _ (λ e. rejected-IsProper s true)
            (λ e. updated refl refl refl))
    | inr y ↦ rw y (rejected-IsProper s false)
  ]

  by_valid :
      (v : MeasurementValidity) {r r' : Applied D V Q M}
      → IsProper s true r
      → some (where_valid s v r) ≡ some r'
      → IsProper s (is_sound v) r'
  by_valid v {r' = r'} p eq =
      subst (λ b. IsProper s b r') (is_valid-is_sound v)
        (subst (IsProper s (is_valid v)) (some_inj eq) (where_valid-IsProper s v p))

  -- `Apply` of each of the eleven models either accepts, which it does only to a valid measurement, and a GNSS
  -- solution with a fix, and then leaves the nominal state alone, or does not accept and changes nothing.
  pub apply_known-IsProper :
      {P : Type ℓ} (model : Model D) (m : SensorMeasurement D V M P) (ltp : Option L)
      (r : Applied D V Q M)
      → apply_known num model s m ltp ≡ some r
      → IsProper s (is_usable m) r
  unfolding apply_known apply_barometer apply_radar_altimeter apply_range_finder apply_echo_sounder
      apply_wheel_odometry apply_external_velocity apply_dvl apply_airspeed apply_optical_flow
      apply_magnetometer height_update fuse_body_velocity
  apply_known-IsProper (barometer o) (SensorMeasurement.barometer m) ltp r eq =
      by_valid m.validity (apply_altitude-IsProper o m m.altitude_m) eq
  apply_known-IsProper (radar_altimeter o) (SensorMeasurement.radar_altimeter m) ltp r eq =
      by_valid m.validity (reject_if-IsProper s _ (reject_if-IsProper s _ (update _ _ _ _))) eq
  apply_known-IsProper (range_finder o) (SensorMeasurement.range_finder m) ltp r eq =
      subst (λ b. IsProper s b r) (is_valid-is_sound m.validity)
        (subst (IsProper s (is_valid m.validity)) (some_inj eq) (
          reject_if-IsProper s _
            (where_valid-IsProper s m.validity (reject_if-IsProper s _ (update _ _ _ _)))))
  apply_known-IsProper (echo_sounder o) (SensorMeasurement.echo_sounder m) ltp r eq =
      by_valid m.validity (reject_if-IsProper s _ (update _ _ _ _)) eq
  apply_known-IsProper (wheel_odometry o) (SensorMeasurement.wheel_odometry m) ltp r eq =
      by_valid m.validity (update _ _ _ _) eq
  apply_known-IsProper (external_velocity o) (SensorMeasurement.external_velocity m) ltp r eq =
      by_valid m.validity (update _ _ _ _) eq
  apply_known-IsProper (dvl o) (SensorMeasurement.dvl m) ltp r eq =
      by_valid m.validity (reject_if-IsProper s _ (update _ _ _ _)) eq
  apply_known-IsProper (airspeed o) (SensorMeasurement.airspeed m) ltp r eq =
      by_valid m.validity (reject_if-IsProper s _ (reject_if-IsProper s _ (update _ _ _ _))) eq
  apply_known-IsProper (optical_flow o) (SensorMeasurement.optical_flow m) ltp r eq =
      by_valid m.validity (fuse_flow-IsProper o m m.integration_time_s) eq
  apply_known-IsProper (magnetometer o) (SensorMeasurement.magnetometer m) ltp r eq =
      by_valid m.validity (update _ _ _ _) eq
  apply_known-IsProper (gnss_loosely_coupled o) (SensorMeasurement.gnss_solution m) ltp r eq =
      subst (λ b. IsProper s b r) (usable_fix_lem m)
        (subst (IsProper s (usable_fix m)) (some_inj eq) (apply_gnss-IsProper o m ltp))
  apply_known-IsProper _ m ltp r eq = absurd (cc eq)
