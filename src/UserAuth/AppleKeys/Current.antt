-- ===== src/UserAuth/AppleKeys/Current.antt =====
-- The keys that keyForKid of apple_jwks.go gives.
use open_aura.Prelude.{
  ℕ, ◌+◌, ◌-◌, ◌*◌, ◌^◌, ◌≤◌, ◌<◌, ◌≡◌, refl, ap, subst, Option, none, some, List, In, inl, inr,
  Bool-cases, ltb, String, str_eq, arith,
}
use open_aura.Jwks.{RsaKey, cached_key}
use open_aura.Effect.{◌>>=◌, Env, World, ok, step}
use open_aura.Effect.Laws.{bind_elim, guard_inv, lift_inv, pure_inv}
use open_aura.UserAuth.AppleKeys.{
  AppleLibrary, JwksAppleVerifier, url_or_default, look_up, fetch, store_keys, refresh_keys,
  refreshed_key, or_refreshed, key_for_kid, unknown_kid, missing_kid,
}
use open_aura.UserAuth.AppleKeys.Served.{
  IsGenuine, StableKeys, refresh_keys-IsGenuine, given_inv, key_of-In,
}

module _ (lib : AppleLibrary) (v : JwksAppleVerifier) (env : Env) where
  -- The cache that the call leaves was served, it has the key under its id, and at a moment of the call,
  -- from the tick `start` on, it was at most ten minutes old.
  pub record IsCurrent (kid : String) (key : RsaKey) (start : ℕ) (w : World) : Type 0 where
    pub genuine : IsGenuine lib (url_or_default v) w.apple_keys
    pub keys : List (String × RsaKey)
    pub cached : w.apple_keys.keys ≡ some keys
    pub known : In (kid, key) keys
    pub moment : ℕ
    pub not_before : start ≤ moment
    pub not_after : moment < w.tick
    pub young : env.now moment ≤ w.apple_keys.fetched + 600 * 10 ^ 9

  pub IsCurrent-earlier :
      (kid : String) (key : RsaKey) (start start' : ℕ) (w : World)
      → start' ≤ start
      → IsCurrent kid key start w
      → IsCurrent kid key start' w
  IsCurrent-earlier kid key start start' w le c = record {
    genuine = c.genuine;
    keys = c.keys;
    cached = c.cached;
    known = c.known;
    moment = c.moment;
    not_before = (let before = c.not_before in omega (arith, le, before));
    not_after = c.not_after;
    young = c.young;
  }

  pub IsCurrent-step :
      (kid : String) (key : RsaKey) (start : ℕ) (w : World)
      → IsCurrent kid key start w
      → IsCurrent kid key start (step w)
  IsCurrent-step kid key start w c = record {
    genuine = c.genuine;
    keys = c.keys;
    cached = c.cached;
    known = c.known;
    moment = c.moment;
    not_before = c.not_before;
    not_after = (let after = c.not_after in omega (arith, after));
    young = c.young;
  }

  kept_inv :
      (keys : Option (List (String × RsaKey))) (fetched now : ℕ) (kid : String) (key : RsaKey)
      → cached_key (record { keys = keys; fetched = fetched }) now kid ≡ some key
      → (ks : List (String × RsaKey)) × (keys ≡ some ks)
        × In (kid, key) ks
        × (now ≤ fetched + 600 * 10 ^ 9)
  unfolding cached_key
  kept_inv none fetched now kid key h = absurd (ground arith)
  kept_inv (some ks) fetched now kid key h =
      elim (Bool-cases (ltb (600 * 10 ^ 9) (now - fetched))) [
        | inl e ↦ absurd (ground arith)
        | inr e ↦ (ks, refl, key_of-In kid key ks (ground arith), ground arith)
      ]

  look_up-IsCurrent :
      (kid : String) (key : RsaKey) (w w' : World)
      → StableKeys lib (url_or_default v) env
      → IsGenuine lib (url_or_default v) w.apple_keys
      → look_up kid env w ≡ (ok (some key), w')
      → IsCurrent kid key w.tick w'
  unfolding look_up
  look_up-IsCurrent kid key w w' st g h =
      let c = env.other_keys w.tick w.apple_keys in
      let (ks, e, m, t) = kept_inv c.keys c.fetched (env.now w.tick) kid key (ground arith) in
      subst (IsCurrent kid key w.tick) (ap (λ x. x.1) h) (record {
        genuine = st w.tick w.apple_keys g;
        keys = ks;
        cached = e;
        known = m;
        moment = w.tick;
        not_before = omega arith;
        not_after = omega arith;
        young = t;
      })

  refresh_keys-tick : (w w' : World) → refresh_keys lib v env w ≡ (ok tt, w') → w.tick ≤ w'.tick
  unfolding refresh_keys fetch store_keys
  refresh_keys-tick w w' h = bind_elim _ _ env w w' tt h λ body w1 hb h1.
      bind_elim _ _ env w1 w' tt h1 λ set w2 hs h2. bind_elim _ _ env w2 w' tt h2 λ keys w3 hk h3.
        let a : w.tick + 1 ≡ w1.tick = ap (λ x. x.1.tick) hb in
        let b = ap (λ x. x.tick) (lift_inv _ env w1 w2 set hs).1 in
        let c = ap (λ x. x.tick) (lift_inv _ env w2 w3 keys hk).1 in
        let d : w3.tick + 1 ≡ w'.tick = ap (λ x. x.1.tick) h3 in omega (arith, a, b, c, d)

  refreshed_key-IsCurrent :
      (kid : String) (key : RsaKey) (w w' : World)
      → StableKeys lib (url_or_default v) env
      → refreshed_key lib v kid env w ≡ (ok key, w')
      → IsCurrent kid key w.tick w'
  unfolding refreshed_key
  refreshed_key-IsCurrent kid key w w' st h = bind_elim _ _ env w w' key h λ u w1 hr h1.
      bind_elim _ _ env w1 w' key h1 λ found w2 hl h2.
        let (f, e) = lift_inv _ env w2 w' key h2 in
        IsCurrent-earlier kid key w1.tick w.tick w' (refresh_keys-tick w w1 hr) (
          look_up-IsCurrent kid key w1 w' st (refresh_keys-IsGenuine lib v env w w1 hr)
            (found_key found w1 w2 hl (given_inv unknown_kid found key f) e))
    where
      found_key :
          (found : Option RsaKey) (w1 w2 : World)
          → look_up kid env w1 ≡ (ok found, w2)
          → found ≡ some key
          → w2 ≡ w'
          → look_up kid env w1 ≡ (ok (some key), w')
      found_key found w1 w2 h f e = rw (h, f, e)

  look_up-tick :
      (kid : String) (o : Option RsaKey) (w w' : World)
      → look_up kid env w ≡ (ok o, w')
      → w.tick ≤ w'.tick
  unfolding look_up
  look_up-tick kid o w w' h =
      let e : w.tick + 1 ≡ w'.tick = ap (λ x. x.1.tick) h in omega (arith, e)

  or_refreshed-IsCurrent :
      (kid : String) (key : RsaKey) (w w' : World)
      → StableKeys lib (url_or_default v) env
      → IsGenuine lib (url_or_default v) w.apple_keys
      → (known : Option RsaKey) (w1 : World) → look_up kid env w ≡ (ok known, w1)
      → or_refreshed lib v kid known env w1 ≡ (ok key, w')
      → IsCurrent kid key w.tick w'
  or_refreshed-IsCurrent kid key w w' st g none w1 hl h =
      IsCurrent-earlier kid key w1.tick w.tick w' (look_up-tick kid none w w1 hl)
        (refreshed_key-IsCurrent kid key w1 w' st h)
  or_refreshed-IsCurrent kid key w w' st g (some k) w1 hl h =
      let (p, e) = pure_inv k env w1 w' key h in look_up-IsCurrent kid key w w' st g (rw (hl, p, e))

  pub key_for_kid-IsCurrent :
      (kid : String) (key : RsaKey) (w w' : World)
      → StableKeys lib (url_or_default v) env
      → IsGenuine lib (url_or_default v) w.apple_keys
      → key_for_kid lib v kid env w ≡ (ok key, w')
      → IsCurrent kid key w.tick w'
  unfolding key_for_kid
  key_for_kid-IsCurrent kid key w w' st g h =
      let (b, h1) =
        guard_inv missing_kid (look_up kid >>= or_refreshed lib v kid) env w w' key (str_eq kid "")
          h in
      bind_elim (look_up kid) (or_refreshed lib v kid) env w w' key h1
        (or_refreshed-IsCurrent kid key w w' st g)
