-- ===== src/App/Config/Document/Errors.antt =====
-- What `FromJson` throws where the settings of a sensor are no object, and what it gives on a document
-- without members.
use mathlib.Core.Logic.{Lift}
use falcon_guide.Prelude.{ℕ, ◌≡◌, refl, ◌++◌, Bool, false, some, List, [], ◌∷◌, ◌⊎◌, inl, inr}
use falcon_guide.Prelude.Bytes.{codes}
use falcon_guide.Prelude.Result.{Result, ok, err, ◌>>=◌}
use falcon_guide.Core.Double.{Literal}
use falcon_guide.App.Config.Json.{Json, read_member, value}
use falcon_guide.App.Config.Sensors.ReadGnss.{read_gnss}
use falcon_guide.App.Config.Sensors.ReadField.{
  read_barometer, read_magnetometer, read_star_tracker, read_airspeed,
}
use falcon_guide.App.Config.Sensors.ReadMotion.{
  read_wheel_odometry, read_external_pose, read_external_velocity, read_external_odometry,
  read_aiding_solution,
}
use falcon_guide.App.Config.Sensors.ReadRange.{
  read_radar_altimeter, read_range_finder, read_optical_flow, read_dvl, read_echo_sounder,
}
use falcon_guide.App.Config.Nav.{read_backend, read_noise, nav_from_json}
use falcon_guide.App.Config.Document.{session_from_json, from_json}

abbrev pub Throws {ℓ} : {A : Type ℓ} → Result A → Type ℓ
Throws {A} r = (what : List ℕ) × (r ≡ err what)

-- The sections that have the setting `enabled`.
abbrev pub sensor_names : List (List ℕ)
sensor_names =
    codes "gnss"
    ∷ codes "barometer"
    ∷ codes "magnetometer"
    ∷ codes "star_tracker"
    ∷ codes "wheel_odometry"
    ∷ codes "radar_altimeter"
    ∷ codes "range_finder"
    ∷ codes "optical_flow"
    ∷ codes "dvl"
    ∷ codes "echo_sounder"
    ∷ codes "airspeed"
    ∷ codes "external_pose"
    ∷ codes "external_velocity"
    ∷ codes "external_odometry"
    ∷ codes "aiding_solution"
    ∷ []

-- Some entry has the property.
abbrev pub Any {ℓ κ} : {A : Type ℓ} → (A → Type κ) → List A → Type κ
Any P [] = Lift {0, κ} ⊥
Any P (x ∷ xs) = P x ⊎ Any P xs

module _ {ℓ κ} {A : Type ℓ} {B : Type κ} where
  Throws-first : (m : Result A) (f : A → Result B) → Throws m → Throws (m >>= f)
  Throws-first m f (what, e) = (what, rw e refl)

  Throws-later : (m : Result A) (f : A → Result B) → ((a : A) → Throws (f a)) → Throws (m >>= f)
  Throws-later (ok a) f h = h a
  Throws-later (err what) f h = (what, refl)

module _ {ℓ} {D J W : Type ℓ} (json : Json D J W) where
  -- The object has a member of that name which is no object.
  abbrev pub HasPlainMember : J → List ℕ → Type ℓ
  HasPlainMember j k = (v : J) × (json.find j k ≡ some v) × (json.is_object v ≡ false)

  value-Throws {κ} :
      {A : Type κ} (get : J → Result A) (k : List ℕ) (x : A) (v : J)
      → json.is_object v ≡ false
      → Throws (value json get v k x)
  unfolding value
  value-Throws get k x v e = (json.not_object v, rw e refl)

  -- The reader throws on what is no object.
  abbrev WantsObject {κ} : {A : Type κ} → (J → Result A) → Type (ℓ ⊔ κ)
  WantsObject read = (v : J) → json.is_object v ≡ false → Throws (read v)

  enabled_first {κ} :
      {A : Type κ} (x : Bool) (f : J → Bool → Result A)
      → WantsObject (λ v. value json json.get_bool v (codes "enabled") x >>= f v)
  enabled_first x f v e = Throws-first _ _ (value-Throws json.get_bool _ x v e)

  section-Throws {κ μ ν} :
      {A : Type κ} {B : Type μ} {Q : Type ν} (read : J → Result A) (j : J) (k : List ℕ) (x : A)
      (f : A → Result B)
      → WantsObject read
      → HasPlainMember j k ⊎ Q
      → (Q → (a : A) → Throws (f a))
      → Throws (read_member json read j k x >>= f)
  unfolding read_member
  section-Throws read j k x f wants (inl (v, found, plain)) later =
      let (what, e) = wants v plain in (what, rw (found, read_member, e) refl)
  section-Throws read j k x f wants (inr q) later = Throws-later _ _ (later q)

  module _ ⦃n : Literal D⦄ where
    nav_from_json-Throws :
        (j : J) → Any (HasPlainMember j) sensor_names → Throws (nav_from_json json j)
    unfolding nav_from_json read_gnss read_barometer read_magnetometer read_star_tracker
        read_wheel_odometry read_radar_altimeter read_range_finder read_optical_flow read_dvl
        read_echo_sounder read_airspeed read_external_pose read_external_velocity
        read_external_odometry read_aiding_solution
    nav_from_json-Throws j bad =
        let number = λ (k : List ℕ). read_member json json.get_double j k in
        Throws-later (read_member json (read_backend json) j (codes "backend") _) _ λ backend.
          Throws-later (number (codes "dead_reckoning_threshold_s") _) _ λ threshold.
            Throws-later (number (codes "min_imu_dt_s") _) _ λ min_dt.
              Throws-later (number (codes "max_imu_dt_s") _) _ λ max_dt.
                Throws-later (read_member json (read_noise json) j (codes "imu") _) _ λ noise.
                  section-Throws (read_gnss json) j (codes "gnss") _ _ (enabled_first _ _) bad
                    λ rest gnss.
                      section-Throws (read_barometer json) j (codes "barometer") _ _
                        (enabled_first _ _) rest
                        λ rest barometer.
                          section-Throws (read_magnetometer json) j (codes "magnetometer") _ _
                            (enabled_first _ _) rest
                            λ rest magnetometer.
                              section-Throws (read_star_tracker json) j (codes "star_tracker") _ _
                                (enabled_first _ _) rest
                                λ rest star_tracker.
                                  section-Throws (read_wheel_odometry json) j
                                    (codes "wheel_odometry") _ _ (enabled_first _ _) rest
                                    λ rest wheel_odometry.
                                      section-Throws (read_radar_altimeter json) j
                                        (codes "radar_altimeter") _ _ (enabled_first _ _) rest
                                        λ rest radar_altimeter.
                                          section-Throws (read_range_finder json) j
                                            (codes "range_finder") _ _ (enabled_first _ _) rest
                                            λ rest range_finder.
                                              section-Throws (read_optical_flow json) j
                                                (codes "optical_flow") _ _ (enabled_first _ _) rest
                                                λ rest optical_flow.
                                                  section-Throws (read_dvl json) j (codes "dvl") _ _
                                                    (enabled_first _ _) rest
                                                    λ rest dvl.
                                                      section-Throws (read_echo_sounder json) j
                                                        (codes "echo_sounder") _ _
                                                        (enabled_first _ _) rest
                                                        λ rest echo_sounder.
                                                          section-Throws (read_airspeed json) j
                                                            (codes "airspeed") _ _
                                                            (enabled_first _ _) rest
                                                            λ rest airspeed.
                                                            section-Throws (read_external_pose json)
                                                            j (codes "external_pose") _ _
                                                            (enabled_first _ _) rest
                                                            λ rest external_pose.
                                                            section-Throws
                                                            (read_external_velocity json) j
                                                            (codes "external_velocity") _ _
                                                            (enabled_first _ _) rest
                                                            λ rest external_velocity.
                                                            section-Throws
                                                            (read_external_odometry json) j
                                                            (codes "external_odometry") _ _
                                                            (enabled_first _ _) rest
                                                            λ rest external_odometry.
                                                            section-Throws
                                                            (read_aiding_solution json) j
                                                            (codes "aiding_solution") _ _
                                                            (enabled_first _ _) rest
                                                            λ rest aiding_solution.
                                                            absurd rest.lower

    -- A document whose `nav` has a member that is no object for the GNSS or for one of the fourteen sensors
    -- that have the setting `enabled`, which the IMU has not, makes `FromJson` throw, with its own prefix
    -- before the text of what went wrong.
    pub plain_sensor_throws :
        (text : W) (j nav : J)
        → json.parse text ≡ ok j
        → json.find j (codes "nav") ≡ some nav
        → Any (HasPlainMember nav) sensor_names
        → (what : List ℕ) × (from_json json text ≡ err (codes "SessionConfig::FromJson: " ++ what))
    unfolding from_json session_from_json read_member
    plain_sensor_throws text j nav parsed found bad =
        let (what, e) = nav_from_json-Throws nav bad in
        (what, rw (parsed, found, read_member, e) refl)
