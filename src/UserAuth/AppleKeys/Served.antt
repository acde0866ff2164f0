-- ===== src/UserAuth/AppleKeys/Served.antt =====
-- Every key of the cache of apple_jwks.go comes from a reply of the address of the keys.
use open_aura.Prelude.{
  ℕ, ◌≡◌, refl, sym, subst, ap, Option, none, some, String, List, [], ◌∷◌, not, str_eq, In, All,
  All-In, inl, inr, arith, Option-cases, Bool-cases, ◌||◌,
}
use text.Mathlib.TextEquality.{eq_iff}
use open_aura.Jwks.{Jwk, RsaKey, KeyCache, key_of, collect_keys, rsa_public_key_from_jwk}
use open_aura.Effect.{Env, World, ok}
use open_aura.Effect.Laws.{bind_elim, lift_inv}
use open_aura.UserAuth.AppleKeys.{
  KeyError, AppleLibrary, JwksAppleVerifier, url_or_default, body_of, fetch, given, store_keys,
  refresh_keys, bad_json, bad_jwk,
}

-- A key of one of the sets that the library served, under its id.
abbrev pub IsServed : AppleLibrary → String → String × RsaKey → Type 0
IsServed lib url (kid, key) =
    (n : ℕ) × (body : List ℕ) × (set : List Jwk) × (jwk : Jwk) × (body_of (lib.http_get n url)
      ≡ ok body)
    × (lib.unmarshal body ≡ some set)
    × In jwk set
    × (jwk.kty ≡ "RSA")
    × (jwk.kid ≡ kid)
    × (rsa_public_key_from_jwk jwk ≡ some key)

abbrev pub AllServed : AppleLibrary → String → Option (List (String × RsaKey)) → Type 0
AllServed lib url none = Unit
AllServed lib url (some keys) = All (IsServed lib url) keys

-- Every key of the cache was served.
abbrev pub IsGenuine : AppleLibrary → String → KeyCache → Type 0
IsGenuine lib url c = AllServed lib url c.keys

-- the other requests keep the cache genuine
abbrev pub StableKeys : AppleLibrary → String → Env → Type 0
StableKeys lib url env =
    (n : ℕ) (c : KeyCache) → IsGenuine lib url c → IsGenuine lib url (env.other_keys n c)

module _ (kid : String) (key : RsaKey) where
  pub key_of-In : (keys : List (String × RsaKey)) → key_of kid keys ≡ some key → In (kid, key) keys
  unfolding key_of
  key_of-In [] h = cc
  key_of-In ((k, x) ∷ keys) h = elim (Bool-cases (str_eq k kid)) [
    | inl e ↦ let same = (eq_iff k kid).0 e in inl (ground arith)
    | inr e ↦ inr (key_of-In keys (rw e at h))
  ]

  module _ (lib : AppleLibrary) (url : String) where
    pub known-IsServed :
        (keys : Option (List (String × RsaKey))) (ks : List (String × RsaKey))
        → AllServed lib url keys
        → keys ≡ some ks
        → In (kid, key) ks
        → IsServed lib url (kid, key)
    known-IsServed none ks g e m = absurd (ground arith)
    known-IsServed (some xs) ks g e m =
        let same : xs ≡ ks = ground arith in
        All-In (IsServed lib url) ks (kid, key) (subst (All (IsServed lib url)) same g) m

module _ (lib : AppleLibrary) (url : String) (n : ℕ) (body : List ℕ) (set : List Jwk) where
  collect_keys-IsServed :
      (some_of : List Jwk) (acc keys : List (String × RsaKey))
      → body_of (lib.http_get n url) ≡ ok body
      → lib.unmarshal body ≡ some set
      → ((jwk : Jwk) → In jwk some_of → In jwk set)
      → All (IsServed lib url) acc
      → collect_keys some_of acc ≡ some keys
      → All (IsServed lib url) keys
  unfolding collect_keys
  collect_keys-IsServed [] acc keys b u m g h = subst (All (IsServed lib url)) (ground arith) g
  collect_keys-IsServed (jwk ∷ js) acc keys b u m g h =
      elim (Bool-cases (not (str_eq jwk.kty "RSA") || str_eq jwk.kid "")) [
        | inl e ↦ collect_keys-IsServed js acc keys b u (λ j i. m j (inr i)) g (rw e at h)
        | inr e ↦ elim (Option-cases (rsa_public_key_from_jwk jwk)) [
          | inl f ↦ absurd (ground arith)
          | inr (key, f) ↦
              collect_keys-IsServed js ((jwk.kid, key) ∷ acc) keys b u (λ j i. m j (inr i))
                (
                  (
                    n,
                    body,
                    set,
                    jwk,
                    b,
                    u,
                    m jwk (inl refl),
                    (eq_iff jwk.kty "RSA").0 (ground arith),
                    refl,
                    f,
                  ),
                  g,
                )
                (ground arith)
        ]
      ]

pub given_inv : {A : Type 0} (e : KeyError) (o : Option A) (a : A) → given e o ≡ ok a → o ≡ some a
given_inv e none a h = absurd (ground arith)
given_inv e (some b) a h = ground arith

module _ (lib : AppleLibrary) (v : JwksAppleVerifier) (env : Env) where
  stored-IsGenuine :
      (n : ℕ) (body : List ℕ) (set : List Jwk) (keys : List (String × RsaKey)) (w w' : World)
      → body_of (lib.http_get n (url_or_default v)) ≡ ok body
      → lib.unmarshal body ≡ some set
      → collect_keys set [] ≡ some keys
      → store_keys keys env w ≡ (ok tt, w')
      → IsGenuine lib (url_or_default v) w'.apple_keys
  unfolding store_keys
  stored-IsGenuine n body set keys w w' b u c h =
      let e : w'.apple_keys.keys ≡ some keys = ground arith in
      subst (AllServed lib (url_or_default v)) (sym e)
        (collect_keys-IsServed lib (url_or_default v) n body set set [] keys b u (λ j i. i) tt c)

  -- What a refresh stores was served.
  pub refresh_keys-IsGenuine :
      (w w' : World)
      → refresh_keys lib v env w ≡ (ok tt, w')
      → IsGenuine lib (url_or_default v) w'.apple_keys
  unfolding refresh_keys
  refresh_keys-IsGenuine w w' h = bind_elim _ _ env w w' tt h λ body w1 hb h1.
      bind_elim _ _ env w1 w' tt h1 λ set w2 hs h2. bind_elim _ _ env w2 w' tt h2 λ keys w3 hk h3.
        stored-IsGenuine w.tick body set keys w3 w' (fetched body w w1 hb)
          (given_inv bad_json _ set (lift_inv _ env w1 w2 set hs).0)
          (given_inv bad_jwk _ keys (lift_inv _ env w2 w3 keys hk).0) h3
    where
      fetched :
          (body : List ℕ) (w w1 : World)
          → fetch lib (url_or_default v) env w ≡ (ok body, w1)
          → body_of (lib.http_get w.tick (url_or_default v)) ≡ ok body
      fetched body w w1 h = ap (λ x. x.0) h
