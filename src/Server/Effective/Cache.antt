-- ===== src/Server/Effective/Cache.antt =====
-- The cache of resolveFetch does not show.
use mathlib.Core.Path.{subst}
use funcbox.Prelude.{
  ℕ, ◌≡◌, refl, sym, ap, ◌∙◌, inl, inr, Bool, true, false, all, Bytes, str_eq, str_eq_iff, List, [],
  ◌∷◌, ◌++◌, Option, some, Result, ok, err, if◌then◌else◌, arith, Option-cases,
}
use funcbox.Prelude.Maps.{Map, get, put, get-put}
use funcbox.Go.Chars.{is_digit}
use funcbox.Go.Strconv.{itoa, digits}
use funcbox.Go.Strconv.RoundTrip.{all-itoa, digits-itoa}
use funcbox.Policy.Fetch.{FetchPolicy, EffectivePolicy, effective}
use funcbox.Server.Effective.{
  Store, OwnerSettings, EffectiveError, cache_key, levels_of, gen_of, denied, look_up,
  resolve_loaded, load, resolve_fetch,
}

cut_digits :
    (a b r t : Bytes)
    → all is_digit a ≡ true
    → all is_digit b ≡ true
    → a ++ 58 ∷ r ≡ b ++ 58 ∷ t
    → (a ≡ b) × (r ≡ t)
unfolding is_digit
cut_digits [] [] r t h k e = (refl, cc)
cut_digits [] (y ∷ b) r t h k e = absurd (ground arith)
cut_digits (x ∷ a) [] r t h k e = absurd (ground arith)
cut_digits (x ∷ a) (y ∷ b) r t h k e =
    let ih = cut_digits a b r t (ground arith) (ground arith) cc in
    let head : x ≡ y = cc in (cc (head, ih.0), ih.1)

itoa-injective : (m n : ℕ) → itoa m ≡ itoa n → m ≡ n
itoa-injective m n e = inj (sym (digits-itoa m) ∙ ap (digits 0) e ∙ digits-itoa n)
  where
    inj : ◌≡◌ {A = Option ℕ} (some m) (some n) → m ≡ n
    inj h = cc

-- Keys of different generations or versions differ.
cache_key-injective :
    (o w o' w' : ℕ) (v v' : Bytes)
    → cache_key o w v ≡ cache_key o' w' v'
    → (o ≡ o') × (w ≡ w') × (v ≡ v')
unfolding cache_key
cache_key-injective o w o' w' v v' e =
    let a =
      cut_digits (itoa o) (itoa o') (itoa w ++ 58 ∷ v) (itoa w' ++ 58 ∷ v') (all-itoa o)
        (all-itoa o') e in
    let b = cut_digits (itoa w) (itoa w') v v' (all-itoa w) (all-itoa w') (a.1) in
    (itoa-injective o o' (a.0), itoa-injective w w' (b.0), b.1)

-- What the levels of a version are at given generations of the organization's and the workspace's
-- settings.
abbrev pub History : Type 0
History = ℕ → ℕ → Bytes → List FetchPolicy

-- Every entry is the policy of the levels that its generations stand for.
abbrev pub IsCoherent : History → Map EffectivePolicy → Type 0
IsCoherent history cache =
    (o w : ℕ) (v : Bytes) (e : EffectivePolicy)
    → get (cache_key o w v) cache ≡ some e
    → e ≡ effective (history o w v)

-- The settings that were loaded are those of their generations.
abbrev pub IsCurrent :
    History
    → Bytes
    → FetchPolicy
    → Result EffectiveError (OwnerSettings × Option OwnerSettings)
    → Type 0
IsCurrent history v manifest_level (err e) = Unit
IsCurrent history v manifest_level (ok (org, ws)) =
    history org.gen (gen_of ws) v ≡ levels_of org.fetch ws manifest_level

-- The policy without a cache: a failure to load denies everything.
abbrev pub uncached :
    FetchPolicy → Result EffectiveError (OwnerSettings × Option OwnerSettings) → EffectivePolicy
uncached manifest_level (err e) = denied
uncached manifest_level (ok (org, ws)) = effective (levels_of org.fetch ws manifest_level)

module _ (history : History) (cache : Map EffectivePolicy) (c : IsCoherent history cache) where
  put-IsCoherent :
      (o w : ℕ) (v : Bytes)
      → IsCoherent history (put (cache_key o w v) (effective (history o w v)) cache)
  put-IsCoherent o w v o' w' v' e h =
      by_key (str_eq (cache_key o w v) (cache_key o' w' v')) refl
        (sym (get-put (cache_key o w v) (cache_key o' w' v') (effective (history o w v)) cache) ∙ h)
    where
      by_key :
          (b : Bool)
          → str_eq (cache_key o w v) (cache_key o' w' v') ≡ b
          → (if b then some (effective (history o w v)) else get (cache_key o' w' v') cache)
            ≡ some e
          → e ≡ effective (history o' w' v')
      by_key true q k =
          let i =
            cache_key-injective o w o' w' v v'
              ((str_eq_iff (cache_key o w v) (cache_key o' w' v')).0 q) in
          rw (sym (i.0), sym (i.1), sym (i.2)) (some-injective k)
        where
          some-injective :
              {a b : EffectivePolicy} → ◌≡◌ {A = Option EffectivePolicy} (some a) (some b) → b ≡ a
          some-injective h = cc
      by_key false q k = c o' w' v' e k

  resolve_loaded-uncached :
      (v : Bytes) (manifest_level : FetchPolicy)
      (loaded : Result EffectiveError (OwnerSettings × Option OwnerSettings))
      → IsCurrent history v manifest_level loaded
      → ((resolve_loaded cache v manifest_level loaded).1 ≡ uncached manifest_level loaded)
        × IsCoherent history (resolve_loaded cache v manifest_level loaded).0
  unfolding resolve_loaded look_up
  resolve_loaded-uncached v manifest_level (err e) h = (refl, c)
  resolve_loaded-uncached v manifest_level (ok (org, ws)) h =
      elim (Option-cases (get (cache_key org.gen (gen_of ws) v) cache)) [
        | inl e ↦ rw e (
          refl,
          subst
              (λ l. IsCoherent history (put (cache_key org.gen (gen_of ws) v) (effective l) cache))
              h (put-IsCoherent org.gen (gen_of ws) v),
        )
        | inr (found, e) ↦ rw e (c org.gen (gen_of ws) v found e ∙ ap effective h, c)
      ]

-- Where a cache agrees with the settings that each generation stands for, and the loaded settings
-- are those of their generations, resolveFetch gives the policy that it would compute without a
-- cache, denies where the settings cannot be loaded, and leaves a cache that agrees again.
pub resolve_fetch-uncached :
    (history : History) (cache : Map EffectivePolicy) (st : Store)
    (owner_type owner_id version_id : Bytes) (manifest_level : FetchPolicy)
    → IsCoherent history cache
    → IsCurrent history version_id manifest_level (load st owner_type owner_id)
    → ((resolve_fetch cache st owner_type owner_id version_id manifest_level).1
        ≡ uncached manifest_level (load st owner_type owner_id))
      × IsCoherent history (resolve_fetch cache st owner_type owner_id version_id manifest_level).0
unfolding resolve_fetch
resolve_fetch-uncached history cache st owner_type owner_id version_id manifest_level c h =
    resolve_loaded-uncached history cache c version_id manifest_level (load st owner_type owner_id)
      h
