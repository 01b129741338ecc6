-- ===== src/Server/LogCapture/Bounds.antt =====
-- What a bounded buffer holds after any writes, and what it reports.
use funcbox.Prelude.{
  ℕ, suc, ◌+◌, ◌-◌, ◌<◌, ◌≡◌, refl, sym, ◌∙◌, ap, inl, inr, Bytes, List, [], ◌∷◌, ◌++◌, leb, ltb,
  length, take, length-take, Option, none, ◌↔◌, take_all, arith, Bool-cases, zero, not_ltb→le,
}
use funcbox.Server.LogCapture.{WriteError, write, write_within, max_captured_output_bytes}

module _ {A : Type 0} where
  append-nil : (xs : List A) → xs ++ [] ≡ xs
  append-nil [] = refl
  append-nil (x ∷ xs) = ap (λ (l : List A). x ∷ l) (append-nil xs)

  append-append : (xs ys zs : List A) → (xs ++ ys) ++ zs ≡ xs ++ (ys ++ zs)
  append-append [] ys zs = refl
  append-append (x ∷ xs) ys zs = ap (λ (l : List A). x ∷ l) (append-append xs ys zs)

  take-append_rest :
      (n : ℕ) (xs ys : List A) → take n xs ++ take (n - length (take n xs)) ys ≡ take n (xs ++ ys)
  take-append_rest zero xs ys = refl
  take-append_rest (suc n) [] ys = let e : suc n - 0 ≡ suc n = omega arith in rw e refl
  take-append_rest (suc n) (x ∷ xs) ys =
      let e : suc n - suc (length (take n xs)) ≡ n - length (take n xs) = omega arith in
      rw e (ap (λ (l : List A). x ∷ l) (take-append_rest n xs ys))

module _ (limit : ℕ) where
  write_within-take :
      (buf p : Bytes) → (write_within limit buf p).0 ≡ buf ++ take (limit - length buf) p
  unfolding write_within
  write_within-take buf p = elim (Bool-cases (leb limit (length buf))) [
    | inl e ↦
        let none_left : limit - length buf ≡ 0 = ground arith in
        rw (e, none_left) (sym (append-nil buf))
    | inr e ↦ elim (Bool-cases (ltb (limit - length buf) (length p))) [
      | inl f ↦ rw (e, f) refl
      | inr f ↦
          let fits : take (limit - length buf) p ≡ p =
            take_all (limit - length buf) p (not_ltb→le (limit - length buf) (length p) f) in
          rw (e, f, fits) refl
    ]
  ]

-- All writes in turn, for their effect.
abbrev pub write_all : List Bytes → Bytes → Bytes
write_all [] buf = buf
write_all (p ∷ ps) buf = write_all ps (write buf p).0

abbrev pub concat : List Bytes → Bytes
concat [] = []
concat (p ∷ ps) = p ++ concat ps

write-take :
    (sent p : Bytes)
    → (write (take max_captured_output_bytes sent) p).0 ≡ take max_captured_output_bytes (sent ++ p)
unfolding write
write-take sent p =
    write_within-take max_captured_output_bytes (take max_captured_output_bytes sent) p
    ∙ take-append_rest max_captured_output_bytes sent p

write_all-sent :
    (ps : List Bytes) (sent : Bytes)
    → write_all ps (take max_captured_output_bytes sent)
      ≡ take max_captured_output_bytes (sent ++ concat ps)
write_all-sent [] sent = ap (take max_captured_output_bytes) (sym (append-nil sent))
write_all-sent (p ∷ ps) sent =
    ap (write_all ps) (write-take sent p)
    ∙ write_all-sent ps (sent ++ p)
    ∙ ap (take max_captured_output_bytes) (append-append sent p (concat ps))

-- After any writes a buffer holds the first 32 KiB of all that was written, in order.
pub write_all-take :
    (ps : List Bytes) → write_all ps [] ≡ take max_captured_output_bytes (concat ps)
write_all-take ps = write_all-sent ps []

-- What io.Writer forbids: a count below the length, without an error.
abbrev pub BreaksContract : Bytes × ℕ × Option WriteError → Bytes → Type 0
BreaksContract w p = (w.1 < length p) × (w.2 ≡ none)

write_within-cases :
    (limit : ℕ) (buf p : Bytes)
    → ((write_within limit buf p).2 ≡ none)
      × (((write_within limit buf p).1 < length p)
          ↔ ((length buf < limit) × (limit < length buf + length p)))
unfolding write_within
write_within-cases limit buf p = elim (Bool-cases (leb limit (length buf))) [
  | inl e ↦ (ground arith, (λ h. ground arith, λ h. ground arith))
  | inr e ↦ (
    ground arith,
    (
      λ h. ground (arith, length-take (limit - length buf) p),
      λ h. ground (arith, length-take (limit - length buf) p),
    ),
  )
]

-- A write breaks the contract of io.Writer, by which a count below the length of what is written comes
-- with an error, exactly if it crosses the cap: the buffer is not full before it, and what it holds and
-- is given is more than 32 KiB.
pub write-BreaksContract_iff :
    (buf p : Bytes)
    → BreaksContract (write buf p) p ↔ (
        (length buf < max_captured_output_bytes)
        × (max_captured_output_bytes < length buf + length p))
unfolding write
write-BreaksContract_iff buf p =
    let (silent, short) = write_within-cases max_captured_output_bytes buf p in
    (λ h. short.0 h.0, λ h. (short.1 h, silent))
