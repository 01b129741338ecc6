-- ===== src/Server/Oauth/Codes/Spent.antt =====
-- A code that was presented is never redeemable again.
use funcbox.Prelude.{
  ℕ, ◌≤◌, Bool, false, not, ◌||◌, Bytes, str_eq, str_eq_iff, [], ◌∷◌, any, none, ◌≡◌, ◌≢◌, refl,
  arith, Bool-cases, inl, inr,
}
use funcbox.Auth.AccessToken.{unix}
use funcbox.Server.Oauth.Codes.{
  OauthAuthCode, CodeTable, purge, has_code_id, create_code, redeemable, consumed, remaining,
}

-- No row lets the code be redeemed at `now`, or later.
abbrev pub Spent : Bytes → ℕ → CodeTable → Type 0
Spent i now t = any (redeemable i now) t ≡ false

unix_mono : (a b : ℕ) → a ≤ b → unix a ≤ unix b
unix_mono a b h = omega arith

module _ (i : Bytes) (now : ℕ) where
  pub remaining-Spent : (t : CodeTable) → Spent i now (remaining i now t)
  unfolding remaining
  remaining-Spent [] = refl
  remaining-Spent (c ∷ t) = ground (arith, remaining-Spent t)

  pub remaining_other-Spent :
      (j : Bytes) (when : ℕ) (t : CodeTable) → Spent i now t → Spent i now (remaining j when t)
  unfolding remaining
  remaining_other-Spent j when [] h = refl
  remaining_other-Spent j when (c ∷ t) h = ground (arith, remaining_other-Spent j when t)

  pub purge-Spent : (when : ℕ) (t : CodeTable) → Spent i now t → Spent i now (purge when t)
  unfolding purge
  purge-Spent when [] h = refl
  purge-Spent when (c ∷ t) h = ground (arith, purge-Spent when t)

  other_code : (c : OauthAuthCode) → c.id ≢ i → redeemable i now c ≡ false
  unfolding redeemable has_code_id
  other_code c n = elim (Bool-cases (str_eq c.id i)) [
    | inl e ↦ absurd (n ((str_eq_iff c.id i).0 e))
    | inr e ↦ ground arith
  ]

  pub create_code-Spent :
      (c : OauthAuthCode) (known : Bool) (when : ℕ) (t : CodeTable)
      → c.id ≢ i
      → Spent i now t
      → Spent i now (create_code c known when t).0
  unfolding create_code
  create_code-Spent c known when t n h =
      elim (Bool-cases (not known || any (has_code_id c.id) (purge when t))) [
        | inl e ↦ ground (arith, purge-Spent when t h)
        | inr e ↦
            ground (arith, purge-Spent when t h, other_code (record c { created_at = unix when }) n)
      ]

  unredeemable_later :
      (later : ℕ) (c : OauthAuthCode)
      → now ≤ later
      → redeemable i now c ≡ false
      → redeemable i later c ≡ false
  unfolding redeemable
  unredeemable_later later c le h = ground (arith, unix_mono now later le)

  pub consumed-Spent :
      (later : ℕ) (t : CodeTable) → now ≤ later → Spent i now t → consumed i later t ≡ none
  unfolding consumed
  consumed-Spent later [] le h = refl
  consumed-Spent later (c ∷ t) le h =
      ground (arith, consumed-Spent later t le, unredeemable_later later c le)
