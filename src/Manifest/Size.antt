-- ===== src/Manifest/Size.antt =====
-- manifest/size.go: byte sizes such as 128MiB. Floating-point numbers are a parameter.
use funcbox.Prelude.{
  ℕ, ◌-◌, ◌^◌, Bool, Bytes, codes, str_eq, List, [], ◌∷◌, Option, none, some, length, take, Result,
  ok, err, if◌then◌else◌,
}
use funcbox.Go.Strings.{trim_space, to_lower, has_suffix}
use funcbox.Go.Strconv.{ℤ, pos, negsuc, atoi}
use funcbox.Manifest.{ManifestError, invalid_memory}

-- float64, as far as it is used: strconv.ParseFloat, `n < 0`, and `int64(n * float64(multiplier))`.
pub record FloatOps : Type 1 where
  pub Float : Type 0
  pub parse_float : Bytes → Option Float
  pub is_negative : Float → Bool
  pub scaled : Float → ℕ → ℤ

pub record ByteUnit : Type 0 where
  pub suffix : Bytes
  pub multiplier : ℕ

abbrev pub byte_units : List ByteUnit
byte_units =
    record { suffix = codes "kib"; multiplier = 2 ^ 10 }
    ∷ record { suffix = codes "mib"; multiplier = 2 ^ 20 }
    ∷ record { suffix = codes "gib"; multiplier = 2 ^ 30 }
    ∷ record { suffix = codes "tib"; multiplier = 2 ^ 40 }
    ∷ record { suffix = codes "kb"; multiplier = 1000 }
    ∷ record { suffix = codes "mb"; multiplier = 1000000 }
    ∷ record { suffix = codes "gb"; multiplier = 1000000000 }
    ∷ record { suffix = codes "tb"; multiplier = 1000000000000 }
    ∷ record { suffix = codes "b"; multiplier = 1 }
    ∷ []

unfoldable pub not_negative : Option ℤ → Result ManifestError ℤ
not_negative none = err invalid_memory
not_negative (some (negsuc n)) = err invalid_memory
not_negative (some (pos n)) = ok (pos n)

module _ (ops : FloatOps) where
  open ops use {Float, parse_float, is_negative, scaled}

  unfoldable pub scaled_by : ℕ → Option Float → Result ManifestError ℤ
  scaled_by multiplier none = err invalid_memory
  scaled_by multiplier (some n) =
      if is_negative n then err invalid_memory else ok (scaled n multiplier)

  -- behind a suffix that was found
  unfoldable pub with_unit : Bytes → ByteUnit → Result ManifestError ℤ
  unfolding scaled_by trim_space str_eq
  with_unit trimmed u =
      let num_part = trim_space (take (length trimmed - length u.suffix) trimmed) in
      if str_eq num_part (codes "")
      then err invalid_memory
      else scaled_by u.multiplier (parse_float num_part)

  unfoldable pub try_units : List ByteUnit → Bytes → Result ManifestError ℤ
  unfolding with_unit not_negative atoi has_suffix to_lower
  try_units [] trimmed = not_negative (atoi trimmed)
  try_units (u ∷ us) trimmed =
      if has_suffix (to_lower trimmed) u.suffix then with_unit trimmed u else try_units us trimmed

  unfoldable pub parse_byte_size : Bytes → Result ManifestError ℤ
  unfolding try_units
  parse_byte_size s =
      if str_eq (trim_space s) (codes "")
      then err invalid_memory
      else try_units byte_units (trim_space s)
