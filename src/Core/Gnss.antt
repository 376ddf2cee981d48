-- ===== src/Core/Gnss.antt =====
-- `GnssSolution` of src/core/include/falconguide/core/sensors/gnss.hpp, `Lla` of coordinates.hpp and
-- the members of `NavigationState` (navigation_state.hpp) that the NMEA writers read. `V` is the
-- type of vectors and `C` that of 3 by 3 matrices.
use falcon_guide.Prelude.{Option, none}
use falcon_guide.Core.Time.{Timestamp}
use falcon_guide.Core.Enums.{GnssFixType, MeasurementValidity, NavigationStatus, no_fix, valid}

pub record Lla {ℓ} (D : Type ℓ) : Type ℓ where
  pub latitude_rad : D
  pub longitude_rad : D
  pub altitude_m : D

pub record GnssSolution {ℓ} (D V C : Type ℓ) : Type ℓ where
  pub timestamp : Timestamp D
  pub position_ecef_m : V
  pub velocity_ecef_mps : V
  pub position_covariance_ecef_m2 : C
  pub velocity_covariance_ecef_m2ps2 : C
  pub fix_type : GnssFixType
  pub horizontal_dop : Option D
  pub vertical_dop : Option D
  pub validity : MeasurementValidity

-- `horizontal_accuracy_m` is a member of `quality`.
pub record NavigationState {ℓ} (D V : Type ℓ) : Type ℓ where
  pub position_ecef_m : V
  pub velocity_enu_mps : V
  pub status : NavigationStatus
  pub horizontal_accuracy_m : Option D

-- `GnssSolution{}`, from the values of the default constructors.
abbrev pub default_solution {ℓ} : {D V C : Type ℓ} → Timestamp D → V → C → GnssSolution D V C
default_solution t v c = record {
  timestamp = t;
  position_ecef_m = v;
  velocity_ecef_mps = v;
  position_covariance_ecef_m2 = c;
  velocity_covariance_ecef_m2ps2 = c;
  fix_type = no_fix;
  horizontal_dop = none;
  vertical_dop = none;
  validity = valid;
}
