-- ===== src/Config/Spacing.antt =====
-- `expand_spacing` of rust/src/config/expansion.rs: numeric axes.
use scientific_workflow.Prelude.{
  ℕ, zero, suc, ◌+◌, ◌-◌, ◌≡◌, Bool, true, false, not, ◌&&◌, ◌||◌, Option, none, some, is_some,
  ◌==◌, if◌then◌else◌, Result, ok, err, ◌>>=◌, ◌>>◌, List, [], ◌∷◌,
}
use scientific_workflow.Config.Json.{Value, number}
use scientific_workflow.Config.Errors.{
  Pointer, ConfigError, invalid, expansion_overflow, spacing_malformed, spacing_bounds,
  spacing_nonfinite,
}

pub data Marker : Type 0 where
  linspace logspace : Marker

-- The struct that serde reads from the marker's value; `endpoint` has its default filled in.
pub record Spacing (F : Type 0) : Type 0 where
  pub start : F
  pub stop : F
  pub num : ℕ
  pub endpoint : Bool
  pub base : Option F

-- The double-precision numbers of the language, serde_json's numbers and serde's reading of the
-- struct. `from_f64` refuses what is not finite.
pub record Floats : Type 1 where
  pub F : Type 0
  pub Number : Type 0
  pub is_finite : F → Bool
  pub not_positive : F → Bool
  pub of_ℕ : ℕ → F
  pub plus : F → F → F
  pub minus : F → F → F
  pub times : F → F → F
  pub over : F → F → F
  pub powf : F → F → F
  pub from_f64 : F → Option Number
  pub from_value : Value Number → Option (Spacing F)
  pub from_f64_finite : (x : F) → is_some (from_f64 x) ≡ is_finite x

-- `Vec::try_reserve`: whether the allocator has room for so many elements.
abbrev pub Allocator : Type 0
Allocator = ℕ → Bool

abbrev pub try_reserve : Allocator → ℕ → Result ConfigError (Unit {0})
try_reserve fits n = if fits n then ok tt else err expansion_overflow

abbrev pub is_linspace : Marker → Bool
is_linspace linspace = true
is_linspace logspace = false

module _ (fl : Floats) where
  open fl use {F, Number, is_finite, not_positive, of_ℕ, plus, minus, times, over, powf, from_f64}

  abbrev pub base_or_ten : Spacing F → F
  base_or_ten spec = elim spec.base [ none ↦ of_ℕ 10 | some b ↦ b ]

  unfoldable pub is_rejected : Marker → Spacing F → Bool
  is_rejected marker spec =
      not (is_finite spec.start)
      || (not (is_finite spec.stop)
          || ((spec.num == 0)
              || ((is_linspace marker && is_some spec.base)
                  || (not (is_linspace marker)
                      && (not (is_finite (base_or_ten spec)) || not_positive (base_or_ten spec))))))

  unfoldable pub denominator : Spacing F → ℕ
  denominator spec =
      if spec.endpoint then (if spec.num - 1 == 0 then 1 else spec.num - 1) else spec.num

  unfoldable pub exponent : Spacing F → ℕ → F
  unfolding denominator
  exponent spec i =
      let fraction = over (of_ℕ i) (of_ℕ (denominator spec)) in
      if i == 0
      then spec.start
      else if spec.endpoint && (i + 1 == spec.num)
      then spec.stop
      else plus (times spec.start (minus (of_ℕ 1) fraction)) (times spec.stop fraction)

  unfoldable pub sample : Marker → Spacing F → ℕ → F
  unfolding exponent
  sample linspace spec i = exponent spec i
  sample logspace spec i = powf (base_or_ten spec) (exponent spec i)

  -- The loop over `index..num`, with the rounds that are left.
  unfoldable pub samples :
      Pointer → Marker → Spacing F → ℕ → ℕ → Result ConfigError (List (Value Number))
  unfolding sample
  samples pointer marker spec i zero = ok []
  samples pointer marker spec i (suc left) = elim (from_f64 (sample marker spec i)) [
    | none ↦ err (invalid pointer spacing_nonfinite)
    | some n ↦ do rest ← samples pointer marker spec (i + 1) left; ok (number n ∷ rest)
  ]

module _ (fl : Floats) (fits : Allocator) where
  open fl use {Number, from_value}

  unfoldable pub expand_spacing :
      Pointer → Marker → Value Number → Result ConfigError (List (Value Number))
  unfolding is_rejected samples
  expand_spacing pointer marker value = elim (from_value value) [
    | none ↦ err (invalid pointer spacing_malformed)
    | some spec ↦
        if is_rejected fl marker spec
        then err (invalid pointer spacing_bounds)
        else do try_reserve fits spec.num; samples fl pointer marker spec 0 spec.num
  ]
