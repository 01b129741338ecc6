-- ===== src/Labels.antt =====
-- The regular expression of a DNS label, `^[C]([C-]{0,61}[C])?$`, that policy/pattern.go
-- (hostLabelRE) and manifest/validate.go (nameRE) spell for two classes C of bytes.
pub mod Matching
mod Tests
use funcbox.Prelude.{ℕ, zero, suc, Bool, true, false, ◌&&◌, ◌||◌, [], ◌∷◌, Bytes, ◌==◌}

unfoldable pub label_char : (ℕ → Bool) → ℕ → Bool
label_char cls c = cls c || c == b'-'

-- [C-]{0,budget}[C] up to the end
unfoldable pub label_tail : (ℕ → Bool) → ℕ → Bytes → Bool
unfolding label_char
label_tail cls budget [] = false
label_tail cls budget (d ∷ []) = cls d
label_tail cls zero (c ∷ d ∷ s) = false
label_tail cls (suc budget) (c ∷ d ∷ s) = label_char cls c && label_tail cls budget (d ∷ s)

unfoldable pub dns_label : (ℕ → Bool) → Bytes → Bool
unfolding label_tail
dns_label cls [] = false
dns_label cls (c ∷ []) = cls c
dns_label cls (c ∷ d ∷ s) = cls c && label_tail cls 61 (d ∷ s)
