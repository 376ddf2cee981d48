-- ===== src/Estimation/Ekf/Factory/Clock.antt =====
-- The receiver clock in the state of the filter that is built.
use falcon_guide.Prelude.{◌≡◌, refl, Bool, true, false, ◌&&◌, ◌||◌, any, any-if}
use falcon_guide.Estimation.Config.{
  GnssIntegrationMode, loosely_coupled, tightly_coupled, GnssSensorConfig, NavigationSystemConfig,
}
use falcon_guide.Estimation.Ekf.Layout.{
  StateLayout, gnss_clock, has, get, register, build_layout, make_standard_layout,
}
use falcon_guide.Estimation.Ekf.Factory.{
  Model, gnss_tightly_coupled, by_mode, is_tight, ekf_options, ekf_models,
}

abbrev pub is_tightly_coupled {ℓ} : {D : Type ℓ} → Model D → Bool
is_tightly_coupled (gnss_tightly_coupled o) = true
is_tightly_coupled _ = false

module _ {ℓ} {D : Type ℓ} where
  -- The layout of the filter that the settings build.
  abbrev pub layout_of : NavigationSystemConfig D → StateLayout
  layout_of config =
      let o = ekf_options config in build_layout o.enable_gnss_clock_state o.enable_baro_bias_state

  clock_by_mode :
      (c : GnssSensorConfig D) (enabled : Bool) (mode : GnssIntegrationMode)
      → has (build_layout (enabled && is_tight mode) false) gnss_clock
        ≡ (is_tightly_coupled (by_mode c mode) && enabled) || false
  unfolding has get build_layout register make_standard_layout
  clock_by_mode c true loosely_coupled = refl
  clock_by_mode c true tightly_coupled = refl
  clock_by_mode c false loosely_coupled = refl
  clock_by_mode c false tightly_coupled = refl

  -- The state of the filter that the settings build has a receiver clock exactly where a model that
  -- takes raw GNSS measurements, and so needs the clock, is registered.
  pub has_clock :
      (config : NavigationSystemConfig D)
      → has (layout_of config) gnss_clock ≡ any is_tightly_coupled (ekf_models config)
  unfolding ekf_options ekf_models
  has_clock config = simp any-if (clock_by_mode config.gnss config.gnss.enabled config.gnss.mode)
