-- ===== src/Core/Double.antt =====
-- What the code does with a `double`: the type and its operations are a parameter, since the language
-- of the model has no floating-point numbers.
use falcon_guide.Prelude.{ℕ, ◌≡◌, Bool, true, false}
use falcon_guide.Prelude.Int.{ℤ}

-- `lt` is `<`, `sub` is `-`, `nought` is `0.0`. `to_ns s` is the cast of `s * 1'000'000'000.0` to
-- `int64_t`, and `of_ns n` the quotient of the count `n` by `1'000'000'000.0`.
pub record Double {ℓ} (D : Type ℓ) : Type ℓ where
  pub nought : D
  pub lt : D → D → Bool
  pub sub : D → D → D
  pub to_ns : D → ℤ
  pub of_ns : ℤ → D

-- IEEE 754: two values are never each below the other. It holds of NaN as well.
pub record IsOrdered {ℓ} (D : Type ℓ) ⦃d : Double D⦄ : Type ℓ where
  pub lt_asymm : (x y : D) → d.lt x y ≡ true → d.lt y x ≡ false

-- `literal m e` is the literal whose value is m · 10⁻ᵉ, such as `3.0e-3` for `literal (pos 3) 3`.
pub record Literal {ℓ} (D : Type ℓ) : Type ℓ where
  pub literal : ℤ → ℕ → D
