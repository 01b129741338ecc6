-- ===== src/Labels/Matching.antt =====
-- `dns_label` decides what the regular expression matches.
use funcbox.Prelude.{
  ℕ, zero, suc, ◌≤◌, ◌≡◌, refl, ◌↔◌, Bool, true, [], ◌∷◌, ◌++◌, Bytes, length, all, arith,
  length-append, all-append, ap,
}
use funcbox.Labels.{label_char, label_tail, dns_label}

-- The texts that the expression matches: one byte of the class, or a first and a last one with at
-- most 61 bytes of the class or dashes between them.
pub data LabelMatch (cls : ℕ → Bool) : Bytes → Type 0 where
  single : {c : ℕ} → cls c ≡ true → LabelMatch cls (c ∷ [])
  long :
      (c : ℕ) (mid : Bytes) (d : ℕ)
      → cls c ≡ true
      → length mid ≤ 61
      → all (label_char cls) mid ≡ true
      → cls d ≡ true
      → LabelMatch cls (c ∷ (mid ++ d ∷ []))

module _ (cls : ℕ → Bool) where
  label_tail_parts :
      (budget : ℕ) (s : Bytes)
      → label_tail cls budget s ≡ true
      → (mid : Bytes) × (d : ℕ) × (s ≡ mid ++ d ∷ [])
        × (length mid ≤ budget)
        × (all (label_char cls) mid ≡ true)
        × (cls d ≡ true)
  unfolding label_tail
  label_tail_parts budget [] h = absurd (ground arith)
  label_tail_parts zero (d ∷ []) h = ([], d, refl, omega arith, refl, h)
  label_tail_parts (suc budget) (d ∷ []) h = ([], d, refl, omega arith, refl, h)
  label_tail_parts zero (c ∷ d ∷ s) h = absurd (ground arith)
  label_tail_parts (suc budget) (c ∷ d ∷ s) h =
      let (mid, last, e, short, chars, end) = label_tail_parts budget (d ∷ s) (ground arith) in
      (c ∷ mid, last, ap (λ (l : Bytes). c ∷ l) e, omega arith, ground arith, end)

  label_tail_of_parts :
      (budget : ℕ) (mid : Bytes) (d : ℕ)
      → length mid ≤ budget
      → all (label_char cls) mid ≡ true
      → cls d ≡ true
      → label_tail cls budget (mid ++ d ∷ []) ≡ true
  unfolding label_tail
  label_tail_of_parts zero [] d l a h = h
  label_tail_of_parts (suc budget) [] d l a h = h
  label_tail_of_parts zero (c ∷ mid) d l a h = absurd (omega arith)
  label_tail_of_parts (suc budget) (c ∷ []) d l a h =
      ground (arith, label_tail_of_parts budget [] d)
  label_tail_of_parts (suc budget) (c ∷ x ∷ mid) d l a h =
      ground (arith, label_tail_of_parts budget (x ∷ mid) d)

  dns_label-LabelMatch : (s : Bytes) → dns_label cls s ≡ true → LabelMatch cls s
  unfolding dns_label
  dns_label-LabelMatch [] h = absurd (ground arith)
  dns_label-LabelMatch (c ∷ []) h = single h
  dns_label-LabelMatch (c ∷ d ∷ s) h =
      let (mid, last, e, short, chars, end) = label_tail_parts 61 (d ∷ s) (ground arith) in
      rw e (long c mid last (ground arith) short chars end)

  LabelMatch-dns_label : {s : Bytes} → LabelMatch cls s → dns_label cls s ≡ true
  unfolding dns_label
  LabelMatch-dns_label (single h) = h
  LabelMatch-dns_label (long c [] d h l a k) = ground arith
  LabelMatch-dns_label (long c (x ∷ mid) d h l a k) =
      ground (arith, label_tail_of_parts 61 (x ∷ mid) d)

  -- The test accepts exactly the texts that the expression matches.
  pub dns_label_iff : (s : Bytes) → (dns_label cls s ≡ true) ↔ LabelMatch cls s
  dns_label_iff s = (dns_label-LabelMatch s, LabelMatch-dns_label)

  -- A label is 1 to 63 bytes long.
  pub length-LabelMatch : {s : Bytes} → LabelMatch cls s → (1 ≤ length s) × (length s ≤ 63)
  length-LabelMatch (single h) = omega arith
  length-LabelMatch (long c mid d h l a k) = omega (arith, length-append mid (d ∷ []))

  -- All its bytes are of the class or dashes.
  pub chars-LabelMatch : {s : Bytes} → LabelMatch cls s → all (label_char cls) s ≡ true
  unfolding label_char
  chars-LabelMatch (single h) = ground arith
  chars-LabelMatch (long c mid d h l a k) = ground (arith, all-append (label_char cls) mid (d ∷ []))
