-- ===== src/Auth/AccessToken/Lifetime.antt =====
-- How long an access token is accepted, and where.
use funcbox.Prelude.{
  ℕ, ◌+◌, ◌≤◌, ◌≡◌, refl, sym, ap, ◌∙◌, false, Bytes, codes, str_eq_refl, str_eq_iff, ◌∷◌, ◌++◌,
  some, ok, err, if◌then◌else◌, leb, is_empty, arith, Result-cases, Option-cases, inl, inr,
}
use mathlib.Core.Path.{subst}
use funcbox.Go.Strconv.{ℤ, pos, negsuc}
use funcbox.Go.Strings.{cut_prefix, cut, contains_byte}
use funcbox.Go.Strings.Laws.{cut_prefix-append, cut-append}
use funcbox.Auth.Accounts.{unauthenticated, Directory, User}
use funcbox.Auth.AccessToken.{
  Codec, Claims, unix, sign_access_token, claims_of, issue_access_token, claims_at, verify_parts,
  verify_access_token, authenticate_bearer, clamp_access_token_ttl, access_token_kind,
  access_token_prefix, max_access_token_ttl, access_token_audience,
}

-- What JSON and base64 promise: a text that was encoded is decoded again, and no encoded text has
-- a dot in it.
abbrev pub EncodesBack : Codec → Type 0
EncodesBack codec =
    (b : Bytes)
    → (codec.decode (codec.encode b) ≡ some b) × (contains_byte b'.' (codec.encode b) ≡ false)

pub clamp_bounds : (ttl : ℤ) → clamp_access_token_ttl ttl ≤ max_access_token_ttl
unfolding clamp_access_token_ttl
clamp_bounds (negsuc n) = omega arith
clamp_bounds (pos n) = ground arith

module _ (codec : Codec) where
  verify_cut :
      (now : ℕ) (raw body p sig : Bytes)
      → cut_prefix raw access_token_prefix ≡ some body
      → cut b'.' body ≡ some (p, sig)
      → verify_access_token codec now raw ≡ verify_parts codec now p sig
  unfolding verify_access_token
  verify_cut now raw body p sig e f = ground arith

  verify_sealed :
      (now : ℕ) (p b sig : Bytes)
      → codec.decode sig ≡ some (codec.mac p)
      → codec.decode p ≡ some b
      → verify_parts codec now p sig ≡ claims_at codec now b
  unfolding verify_parts
  verify_sealed now p b sig e f = ground (arith, str_eq_refl (codec.mac p))

  issue_access_token-signs :
      (dir : Directory) (user_id : Bytes) (u : User) (ttl : ℤ) (aud : Bytes) (now : ℕ)
      (token : Bytes) (exp : ℕ)
      → dir.user_by_id user_id ≡ some u
      → issue_access_token codec dir user_id ttl aud now ≡ ok (token, exp)
      → token ≡ sign_access_token codec (claims_of u ttl aud now)
  unfolding issue_access_token
  issue_access_token-signs dir user_id u ttl aud now token exp found h = ground arith

  claims_at_issued :
      (c : Claims) (later : ℕ) (b : Bytes)
      → codec.unmarshal b ≡ some c
      → c.kind ≡ access_token_kind
      → is_empty c.sub ≡ false
      → claims_at codec later b ≡ (if leb c.exp (unix later) then err unauthenticated else ok c)
  unfolding claims_at
  claims_at_issued c later b reads k named = ground (arith, str_eq_iff c.kind access_token_kind)

  claims_at-aud :
      (c d : Claims) (later : ℕ) (b : Bytes)
      → codec.unmarshal b ≡ some c
      → claims_at codec later b ≡ ok d
      → d ≡ c
  unfolding claims_at
  claims_at-aud c d later b reads h = ground arith

  access_token_audience-scoped :
      (later : ℕ) (raw aud : Bytes)
      → ((d : Claims) → verify_access_token codec later raw ≡ ok d → is_empty d.aud ≡ false)
      → access_token_audience codec later raw ≡ some aud
      → is_empty aud ≡ false
  unfolding access_token_audience
  access_token_audience-scoped later raw aud scoped h =
      elim (Result-cases (verify_access_token codec later raw)) [
        | inl (d, e) ↦ ground (arith, scoped d e)
        | inr (x, e) ↦ ground arith
      ]

  refused_elsewhere :
      (dir : Directory) (later : ℕ) (hdr raw : Bytes)
      → cut_prefix hdr (codes "Bearer ") ≡ some raw
      → ((d : Claims) → verify_access_token codec later raw ≡ ok d → is_empty d.aud ≡ false)
      → authenticate_bearer codec dir later hdr ≡ err unauthenticated
  unfolding authenticate_bearer
  refused_elsewhere dir later hdr raw e scoped =
      elim (Option-cases (access_token_audience codec later raw)) [
        | inl none_of ↦ ground arith
        | inr (aud, e_aud) ↦ ground (arith, access_token_audience-scoped later raw aud scoped e_aud)
      ]

module _ (codec : Codec) (back : EncodesBack codec) where
  -- The token of some claims is read back as those claims, tested at the time of the reading.
  pub verify-sign :
      (c : Claims) (now : ℕ)
      → verify_access_token codec now (sign_access_token codec c)
        ≡ claims_at codec now (codec.marshal c)
  unfolding sign_access_token
  verify-sign c now =
      let p : Bytes = codec.encode (codec.marshal c) in
      let sig : Bytes = codec.encode (codec.mac p) in
      verify_cut codec now (access_token_prefix ++ p ++ b'.' ∷ sig) (p ++ b'.' ∷ sig) p sig
        (cut_prefix-append access_token_prefix (p ++ b'.' ∷ sig))
        (cut-append b'.' p sig (back (codec.marshal c)).1)
      ∙ verify_sealed codec now p (codec.marshal c) sig (back (codec.mac p)).0
          (back (codec.marshal c)).0

  -- A user that is found, with an id that is not empty, gets a token that verifies as its claims
  -- until the second it expires, at most an hour after it was issued, and is refused from then on.
  -- This takes that base64 reads back what it wrote, without a dot, and JSON the token's claims.
  pub verify-issue :
      (dir : Directory) (user_id : Bytes) (u : User) (ttl : ℤ) (aud : Bytes) (now later : ℕ)
      → dir.user_by_id user_id ≡ some u
      → is_empty u.id ≡ false
      → codec.unmarshal (codec.marshal (claims_of u ttl aud now)) ≡ some (claims_of u ttl aud now)
      → (token : Bytes) × (exp : ℕ) × (issue_access_token codec dir user_id ttl aud now
          ≡ ok (token, exp))
        × (exp ≤ now + max_access_token_ttl)
        × (verify_access_token codec later token ≡ (
            if leb (unix exp) (unix later)
            then err unauthenticated
            else ok (claims_of u ttl aud now)))
  unfolding issue_access_token claims_of
  verify-issue dir user_id u ttl aud now later found named reads = (
    sign_access_token codec (claims_of u ttl aud now),
    now + clamp_access_token_ttl ttl,
    ground arith,
    omega (arith, clamp_bounds ttl),
    verify-sign (claims_of u ttl aud now) later ∙ read,
  )
    where
      read : claims_at codec later (codec.marshal (claims_of u ttl aud now)) ≡ (
          if leb (unix (now + clamp_access_token_ttl ttl)) (unix later)
          then err unauthenticated
          else ok (claims_of u ttl aud now))
      read =
          claims_at_issued codec (claims_of u ttl aud now) later
            (codec.marshal (claims_of u ttl aud now)) reads refl named

  -- The management API refuses a token that was issued for an audience that is not empty, whatever
  -- accounts there are by then and whenever it is presented. This takes that base64 reads back what
  -- it wrote, without a dot, and JSON the token's claims.
  pub authenticate_bearer-issue :
      (dir dir' : Directory) (user_id : Bytes) (u : User) (ttl : ℤ) (aud : Bytes) (now later : ℕ)
      (token : Bytes) (exp : ℕ)
      → dir.user_by_id user_id ≡ some u
      → codec.unmarshal (codec.marshal (claims_of u ttl aud now)) ≡ some (claims_of u ttl aud now)
      → is_empty aud ≡ false
      → issue_access_token codec dir user_id ttl aud now ≡ ok (token, exp)
      → authenticate_bearer codec dir' later (codes "Bearer " ++ token) ≡ err unauthenticated
  unfolding claims_of
  authenticate_bearer-issue dir dir' user_id u ttl aud now later token exp found reads scoped
        issued =
      refused_elsewhere codec dir' later (codes "Bearer " ++ token) token
        (cut_prefix-append (codes "Bearer ") token) kept
    where
      signed : token ≡ sign_access_token codec (claims_of u ttl aud now)
      signed = issue_access_token-signs codec dir user_id u ttl aud now token exp found issued

      kept : (d : Claims) → verify_access_token codec later token ≡ ok d → is_empty d.aud ≡ false
      kept d h =
          let e : d ≡ claims_of u ttl aud now =
            claims_at-aud codec (claims_of u ttl aud now) d later
              (codec.marshal (claims_of u ttl aud now)) reads
              (sym (verify-sign (claims_of u ttl aud now) later)
                ∙ sym (ap (verify_access_token codec later) signed)
                ∙ h) in
          subst (λ (c : Claims). is_empty c.aud ≡ false) (sym e) scoped
