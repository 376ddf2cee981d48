-- ===== src/Estimation/Ekf/Models/Height.antt =====
-- barometer.cpp, radar_altimeter.cpp, range_finder.cpp and echo_sounder.cpp of
-- src/estimation/src/backends/ekf/measurement_models.
use falcon_guide.Prelude.{◌+◌, Bool, true, false, not, Option, none, some, if◌then◌else◌}
use falcon_guide.Prelude.Int.{pos, negsuc}
use falcon_guide.Core.Double.{Double, Literal}
use falcon_guide.Core.Sensors.{
  RadarAltimeterSurface, RadarAltimeterMeasurement, RangeFinderMeasurement, EchoSounderMeasurement,
}
use falcon_guide.Core.Numerics.{Numerics}
use falcon_guide.Estimation.Interface.{rejected}
use falcon_guide.Estimation.Measurement.{BarometerMeasurement}
use falcon_guide.Estimation.Config.{
  BarometerOptions, RadarAltimeterOptions, RangeFinderOptions, EchoSounderOptions,
}
use falcon_guide.Estimation.Ekf.Layout.{position, baro_bias, has}
use falcon_guide.Estimation.Ekf.Estimator.{EkfState, Applied, offset_of}
use falcon_guide.Estimation.Ekf.Estimator.Fuse.{ekf_update}
use falcon_guide.Estimation.Ekf.Models.Shared.{
  value_or, unchanged, where_valid, reject_if, height_update,
}

abbrev is_invalid : RadarAltimeterSurface → Bool
is_invalid RadarAltimeterSurface.invalid = true
is_invalid _ = false

module _ {ℓ} {D V Q M L : Type ℓ} ⦃d : Double D⦄ ⦃n : Literal D⦄ (num : Numerics D V Q M L) where
  open n use {literal}
  open num use {add, negative, mul, div, pow, v_z, zeros, constant, entry, set_entry}

  unfoldable pub pressure_to_altitude : D → D → D
  pressure_to_altitude pressure_pa sea_level_pa =
      let exponent = div (literal (pos 1) 0) (literal (pos 525588) 5) in
      mul (literal (pos 4433077) 2)
        (d.sub (literal (pos 1) 0) (pow (div pressure_pa sea_level_pa) exponent))

  -- The part of `Apply` after the observation and its sigma are known.
  unfoldable pub fuse_altitude : BarometerOptions D → EkfState D V Q M → D → D → Applied D V Q M
  fuse_altitude o s z_obs sigma =
      let layout = s.layout in
      let bias = offset_of layout baro_bias in
      let z = v_z s.nominal.position_enu_m in
      let h_pred = if has layout baro_bias then add z (entry s.error_state bias 0) else z in
      let h0 =
        set_entry (zeros 1 layout.total_size) 0 (offset_of layout position + 2)
          (literal (pos 1) 0) in
      let h = if has layout baro_bias then set_entry h0 0 bias (literal (pos 1) 0) else h0 in
      ekf_update num s h (constant (d.sub z_obs h_pred)) (constant (mul sigma sigma))
        o.innovation_gate

  -- By the altitude of the measurement, if it has one.
  unfoldable pub apply_altitude :
      BarometerOptions D → EkfState D V Q M → BarometerMeasurement D → Option D → Applied D V Q M
  unfolding fuse_altitude pressure_to_altitude
  apply_altitude o s m (some z) =
      fuse_altitude o s z (value_or o.altitude_sigma_m (literal (pos 1) 0))
  apply_altitude o s m none =
      if d.lt d.nought m.pressure_pa
      then fuse_altitude o s (pressure_to_altitude m.pressure_pa o.isa_sea_level_pressure_pa)
          (value_or o.altitude_sigma_m (literal (pos 5) 0))
      else unchanged s rejected

  unfoldable pub apply_barometer :
      BarometerOptions D → EkfState D V Q M → BarometerMeasurement D → Applied D V Q M
  unfolding apply_altitude
  apply_barometer o s m = where_valid s m.validity (apply_altitude o s m m.altitude_m)

  unfoldable pub apply_radar_altimeter :
      RadarAltimeterOptions D → EkfState D V Q M → RadarAltimeterMeasurement D → Applied D V Q M
  apply_radar_altimeter o s m =
      let h_pred = d.sub (v_z s.nominal.position_enu_m) o.terrain_elevation_m in
      where_valid s m.validity (
        reject_if s (is_invalid m.surface) (
          reject_if s (d.lt m.range_m d.nought) (
            height_update num s (literal (pos 1) 0) (d.sub m.range_m h_pred)
              (value_or o.sigma_m (literal (pos 5) 1)) o.innovation_gate)))

  unfoldable pub apply_range_finder :
      RangeFinderOptions D → EkfState D V Q M → RangeFinderMeasurement D → Applied D V Q M
  apply_range_finder o s m =
      let h_pred = d.sub (v_z s.nominal.position_enu_m) o.terrain_elevation_m in
      reject_if s (not o.use_as_altitude) (
        where_valid s m.validity (
          reject_if s (d.lt m.range_m d.nought) (
            height_update num s (literal (pos 1) 0) (d.sub m.range_m h_pred)
              (value_or o.sigma_m (literal (pos 3) 1)) o.innovation_gate)))

  unfoldable pub apply_echo_sounder :
      EchoSounderOptions D → EkfState D V Q M → EchoSounderMeasurement D → Applied D V Q M
  apply_echo_sounder o s m =
      let sound_speed = value_or m.sound_speed_mps o.sound_speed_mps in
      let depth = div (mul m.depth_or_range_m sound_speed) o.sound_speed_mps in
      let h_pred = add (negative (v_z s.nominal.position_enu_m)) o.depth_origin_m in
      where_valid s m.validity (
        reject_if s (d.lt m.depth_or_range_m d.nought) (
          height_update num s (literal (negsuc 0) 0) (d.sub depth h_pred)
            (value_or o.sigma_m (literal (pos 2) 1)) o.innovation_gate))
