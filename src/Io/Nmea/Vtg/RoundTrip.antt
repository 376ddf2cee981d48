-- ===== src/Io/Nmea/Vtg/RoundTrip.antt =====
-- A VTG sentence is read back, and the three sentences agree on which states are fit for use.
use falcon_guide.Prelude.{
  ℕ, ◌≡◌, refl, ap, ◌∙◌, Bool, true, false, List, ◌++◌, ◌-◌, not, sym, length, All, arith,
  if◌then◌else◌,
}
use falcon_guide.Prelude.Bytes.{codes, same, IsFree}
use falcon_guide.Core.Enums.{
  NavigationStatus, unknown, not_initialized, initializing, nominal, degraded, dead_reckoning,
  fault, single, no_fix,
}
use falcon_guide.Core.Gnss.{NavigationState}
use falcon_guide.Io.Nmea.Sentence.{NmeaSentence}
use falcon_guide.Io.Nmea.Sentence.RoundTrip.{parse_sentence-build_sentence}
use falcon_guide.Io.Nmea.Sentence.Pieces.{IsEnding}
use falcon_guide.Io.Nmea.Numbers.{copies, NmeaNumbers, value, nullopt, and_then, or_throw, field}
use falcon_guide.Io.Nmea.Numbers.Text.{IsPrinted, starts_digit, starts_digit-filled}
use falcon_guide.Io.Nmea.Gga.{parse_gga_fix_type, format_gga_fix_type, stod_or, on_sentence}
use falcon_guide.Io.Nmea.Rmc.{rmc_status_char}
use falcon_guide.Io.Nmea.Vtg.{
  VtgData, vtg_mode, parse_vtg, parse_vtg_line, vtg_fields, write_vtg, course_deg, speed_mps,
}

-- A solution that may be used: the filter is initialized and sound.
abbrev pub is_usable : NavigationStatus → Bool
is_usable nominal = true
is_usable degraded = true
is_usable dead_reckoning = true
is_usable _ = false

-- The three writers mark the same states as valid: the quality field of GGA reads as a single fix, the
-- status of RMC is "A", and the mode of VTG is "A", exactly for a usable status.
pub statuses_agree :
    (s : NavigationStatus)
    → (parse_gga_fix_type (format_gga_fix_type s) ≡ (if is_usable s then single else no_fix))
      × (rmc_status_char s ≡ (if is_usable s then b'A' else b'V'))
      × (vtg_mode s ≡ (if is_usable s then codes "A" else codes "N"))
unfolding parse_gga_fix_type format_gga_fix_type rmc_status_char vtg_mode
statuses_agree unknown = (refl, refl, refl)
statuses_agree not_initialized = (refl, refl, refl)
statuses_agree initializing = (refl, refl, refl)
statuses_agree nominal = (refl, refl, refl)
statuses_agree degraded = (refl, refl, refl)
statuses_agree dead_reckoning = (refl, refl, refl)
statuses_agree fault = (refl, refl, refl)

vtg_mode-IsFree : (s : NavigationStatus) → IsFree b',' (vtg_mode s) × IsFree b'*' (vtg_mode s)
unfolding vtg_mode
vtg_mode-IsFree unknown = ((refl, tt), (refl, tt))
vtg_mode-IsFree not_initialized = ((refl, tt), (refl, tt))
vtg_mode-IsFree initializing = ((refl, tt), (refl, tt))
vtg_mode-IsFree nominal = ((refl, tt), (refl, tt))
vtg_mode-IsFree degraded = ((refl, tt), (refl, tt))
vtg_mode-IsFree dead_reckoning = ((refl, tt), (refl, tt))
vtg_mode-IsFree fault = ((refl, tt), (refl, tt))

same-vtg_mode : (s : NavigationStatus) → same (vtg_mode s) (codes "N") ≡ not (is_usable s)
unfolding vtg_mode
same-vtg_mode unknown = refl
same-vtg_mode not_initialized = refl
same-vtg_mode initializing = refl
same-vtg_mode nominal = refl
same-vtg_mode degraded = refl
same-vtg_mode dead_reckoning = refl
same-vtg_mode fault = refl

zero_minus : (n : ℕ) → 0 - n ≡ 0
zero_minus n = omega arith

module _ {ℓ} {D V C : Type ℓ} (numbers : NmeaNumbers D V C) (printed : IsPrinted numbers) where
  open numbers use {mul, number_3_6, knots, fixed}

  abbrev sentence : NavigationState D V → NmeaSentence
  sentence state = record {
    talker = codes "FG";
    formatter = codes "VTG";
    fields = vtg_fields numbers state;
  }

  not_swaps : {A : Type ℓ} (b : Bool) (x y : A) → (if not b then x else y) ≡ (if b then y else x)
  not_swaps true x y = refl
  not_swaps false x y = refl

  -- The numbers of a state as they are read back: rounded to two decimals.
  abbrev pub vtg_data : V → VtgData D
  vtg_data velocity = record {
    course_true_deg = printed.rounded 2 (course_deg numbers velocity);
    speed_knots = printed.rounded 2 (mul (speed_mps numbers velocity) knots);
    speed_kph = printed.rounded 2 (mul (speed_mps numbers velocity) number_3_6);
  }

  -- The course and the two speeds are printed without a sign, and neither as an infinity nor as NaN.
  abbrev pub IsPlain : V → Type 0
  IsPlain velocity =
      (starts_digit (fixed 2 (course_deg numbers velocity)) ≡ true)
      × (starts_digit (fixed 2 (mul (speed_mps numbers velocity) knots)) ≡ true)
      × (starts_digit (fixed 2 (mul (speed_mps numbers velocity) number_3_6)) ≡ true)

  stod_or-fixed :
      (d e : D)
      → starts_digit (fixed 2 d) ≡ true
      → stod_or numbers e (fixed 2 d) ≡ value (printed.rounded 2 d)
  unfolding stod_or or_throw
  stod_or-fixed d e h = rw (starts_digit-filled (fixed 2 d) h) (
      ap or_throw (
        ap (λ k. numbers.stod (copies b'0' k ++ fixed 2 d)) (sym (zero_minus (length (fixed 2 d))))
        ∙ printed.stod_fixed 0 2 d (omega arith) h))

  parse_vtg-sentence :
      (state : NavigationState D V)
      → IsPlain state.velocity_enu_mps
      → parse_vtg numbers (sentence state)
        ≡ (if is_usable state.status then value (vtg_data state.velocity_enu_mps) else nullopt)
  unfolding parse_vtg vtg_fields field vtg_mode and_then
  parse_vtg-sentence state plain =
      let v = state.velocity_enu_mps in
      rw
        (
          same-vtg_mode state.status,
          stod_or-fixed (course_deg numbers v) numbers.number_0 plain.0,
          stod_or-fixed (mul (speed_mps numbers v) knots) numbers.number_0 plain.1,
          stod_or-fixed (mul (speed_mps numbers v) number_3_6) numbers.number_0 plain.2,
        )
        (not_swaps (is_usable state.status) _ _)

  commas : (state : NavigationState D V) → All (IsFree b',') (vtg_fields numbers state)
  unfolding vtg_fields
  commas state = (
    (printed.fixed_free 2 _).0,
    (
      (refl, tt),
      (
        tt,
        (
          (refl, tt),
          (
            (printed.fixed_free 2 _).0,
            (
              (refl, tt),
              ((printed.fixed_free 2 _).0, ((refl, tt), ((vtg_mode-IsFree state.status).0, tt))),
            ),
          ),
        ),
      ),
    ),
  )

  stars : (state : NavigationState D V) → All (IsFree b'*') (vtg_fields numbers state)
  unfolding vtg_fields
  stars state = (
    (printed.fixed_free 2 _).1,
    (
      (refl, tt),
      (
        tt,
        (
          (refl, tt),
          (
            (printed.fixed_free 2 _).1,
            (
              (refl, tt),
              ((printed.fixed_free 2 _).1, ((refl, tt), ((vtg_mode-IsFree state.status).1, tt))),
            ),
          ),
        ),
      ),
    ),
  )

  -- Where the streams and `std::stod` keep their promises, the VTG sentence of a state whose course and
  -- speeds are printed without a sign, and neither as an infinity nor as NaN, is read back: as its course
  -- and speeds, rounded to two decimals, where the status is usable, and as no data else.
  pub parse_vtg_line-write_vtg :
      (state : NavigationState D V) (ending : List ℕ)
      → IsPlain state.velocity_enu_mps
      → IsEnding ending
      → parse_vtg_line numbers (write_vtg numbers state ++ ending)
        ≡ (if is_usable state.status then value (vtg_data state.velocity_enu_mps) else nullopt)
  unfolding parse_vtg_line write_vtg
  parse_vtg_line-write_vtg state ending plain h =
      ap (on_sentence numbers (parse_vtg numbers)) (
        parse_sentence-build_sentence (sentence state) ending
          (record {
            talker_two = refl;
            formatter_three = omega arith;
            talker_free = (refl, (refl, tt));
            formatter_free = (refl, (refl, (refl, tt)));
            fields_free = commas state;
          })
          (refl, (refl, tt)) (refl, (refl, (refl, tt))) (stars state) h)
      ∙ parse_vtg-sentence state plain
