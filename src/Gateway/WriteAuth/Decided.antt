-- ===== src/Gateway/WriteAuth/Decided.antt =====
-- The decision of apps/gateway/src/writeAuth.ts, both ways.
use aegis_phase.Prelude.{
  ℕ, ◌≡◌, ◌≢◌, ◌↔◌, refl, Bool, true, false, not, Option, none, some, [], ◌∷◌, Text, Bytes, text_eq,
  text_eq_iff, if◌then◌else◌,
}
use aegis_phase.Gateway.WriteAuth.{
  is_guarded_write, bearer_token, key_matches, presented_with, with_key, classify, allowed,
  not_a_write, unauthorized,
}

module _ (digest : Text → Bytes) where
  -- A key is set, and the header presents a token with its digest.
  pub record Presents (authorization write_key : Option Text) : Type 0 where
    pub key : Text
    pub token : Text
    pub set : write_key ≡ some key
    pub non_empty : key ≢ []
    pub presented : bearer_token authorization ≡ some token
    pub same : digest token ≡ digest key

  presented-Presents :
      (c : ℕ) (key : Text) (authorization o : Option Text)
      → bearer_token authorization ≡ o
      → presented_with digest (c ∷ key) o ≡ allowed
      → Presents authorization (some (c ∷ key))
  unfolding key_matches
  presented-Presents c key authorization none e h = cc
  presented-Presents c key authorization (some t) e h = record {
    key = c ∷ key;
    token = t;
    set = refl;
    non_empty = λ z. cc;
    presented = e;
    same = (text_eq_iff _ _).0 (if-allowed _ h);
  }
    where
      if-allowed : (b : Bool) → (if b then allowed else unauthorized) ≡ allowed → b ≡ true
      if-allowed true z = refl
      if-allowed false z = cc

  with_key-Presents :
      (authorization write_key : Option Text)
      → with_key digest authorization write_key ≡ allowed
      → Presents authorization write_key
  with_key-Presents authorization none h = cc
  with_key-Presents authorization (some []) h = cc
  with_key-Presents authorization (some (c ∷ key)) h =
      presented-Presents c key authorization (bearer_token authorization) refl h

  with_key_of_Presents :
      (authorization write_key : Option Text)
      → Presents authorization write_key
      → with_key digest authorization write_key ≡ allowed
  unfolding key_matches
  with_key_of_Presents authorization write_key p =
      rw p.set (by_key p.key p.token p.non_empty p.presented p.same)
    where
      by_key :
          (key token : Text)
          → key ≢ []
          → bearer_token authorization ≡ some token
          → digest token ≡ digest key
          → with_key digest authorization (some key) ≡ allowed
      by_key [] token n b s = absurd (n refl)
      by_key (c ∷ key) token n b s =
          rw (b, s, (text_eq_iff (digest (c ∷ key)) (digest (c ∷ key))).1 refl) refl

  with_key_ne :
      (authorization write_key : Option Text)
      → with_key digest authorization write_key ≢ not_a_write
  unfolding key_matches
  with_key_ne authorization none = λ e. cc
  with_key_ne authorization (some []) = λ e. cc
  with_key_ne authorization (some (c ∷ key)) = presented_ne (bearer_token authorization)
    where
      judged_ne : (b : Bool) → (if b then allowed else unauthorized) ≢ not_a_write
      judged_ne true = λ e. cc
      judged_ne false = λ e. cc

      presented_ne : (o : Option Text) → presented_with digest (c ∷ key) o ≢ not_a_write
      presented_ne none = λ e. cc
      presented_ne (some t) = judged_ne (text_eq (digest t) (digest (c ∷ key)))

  module _ (method url : Text) (authorization write_key : Option Text) where
    by_guard :
        (b : Bool)
        → is_guarded_write method url ≡ b
        → let outcome = if not b then not_a_write else with_key digest authorization write_key in
          ((outcome ≡ not_a_write) ↔ (is_guarded_write method url ≡ false))
          × ((outcome ≡ allowed)
              ↔ ((is_guarded_write method url ≡ true) × Presents authorization write_key))
    by_guard true e = (
      (λ h. absurd (with_key_ne authorization write_key h), λ h. absurd (cc)),
      (
        λ h. (e, with_key-Presents authorization write_key h),
        λ (_, p). with_key_of_Presents authorization write_key p,
      ),
    )
    by_guard false e = ((λ _. e, λ _. refl), (λ h. cc, λ (h, _). absurd (cc)))

    -- A request passes as no write exactly when it is not guarded, and is allowed to write exactly
    -- when it is guarded, a key is set, and the header presents a token with the key's digest. So
    -- without a key no write is allowed.
    pub classify_iff :
        ((classify digest method url authorization write_key ≡ not_a_write)
          ↔ (is_guarded_write method url ≡ false))
        × ((classify digest method url authorization write_key ≡ allowed)
            ↔ ((is_guarded_write method url ≡ true) × Presents authorization write_key))
    unfolding classify
    classify_iff = by_guard (is_guarded_write method url) refl
