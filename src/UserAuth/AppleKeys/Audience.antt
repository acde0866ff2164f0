-- ===== src/UserAuth/AppleKeys/Audience.antt =====
-- What the test of the audience in apple_jwks.go lets through.
use text.Mathlib.TextEquality.{eq_iff}
use open_aura.Prelude.{
  ◌≡◌, refl, sym, ◌∙◌, String, List, [], ◌∷◌, In, filter, map, any, any→In, inl, inr, ◌⊎◌,
  Bool-cases, true, false, not, str_eq,
}
use open_aura.Text.{trim_space}
use open_aura.Jwks.{audience_allowed}

-- One of the audiences of the token is, but for blanks around it, one of the configured clients.
abbrev pub IsForClient : List String → List String → Type 0
IsForClient audience client_ids =
    (a : String) × (id : String) × In a audience
    × In id client_ids
    × (str_eq (trim_space id) "" ≡ false)
    × (trim_space a ≡ trim_space id)

-- A trimmed client that is not blank.
abbrev IsTrimmed : List String → String → Type 0
IsTrimmed ids x =
    (id : String) × In id ids × (str_eq (trim_space id) "" ≡ false) × (trim_space id ≡ x)

later-IsTrimmed :
    (id : String) (ids : List String) (x : String) → IsTrimmed ids x → IsTrimmed (id ∷ ids) x
later-IsTrimmed id ids x (i, k, b, e) = (i, inr k, b, e)

filter-IsTrimmed :
    (ids : List String) (x : String)
    → In x (filter (λ id. not (str_eq id "")) (map trim_space ids))
    → IsTrimmed ids x
filter-IsTrimmed [] x m = absurd m
filter-IsTrimmed (id ∷ ids) x m = elim (Bool-cases (str_eq (trim_space id) "")) [
  | inl e ↦ later-IsTrimmed id ids x (filter-IsTrimmed ids x (rw e at m))
  | inr e ↦
      let n : (trim_space id ≡ x) ⊎ In x (filter (λ id. not (str_eq id "")) (map trim_space ids)) =
        rw e at m in
      elim n [
        | inl same ↦ (id, inl refl, e, same)
        | inr k ↦ later-IsTrimmed id ids x (filter-IsTrimmed ids x k)
      ]
]

pub audience_allowed-IsForClient :
    (audience client_ids : List String)
    → audience_allowed audience client_ids ≡ true
    → IsForClient audience client_ids
unfolding audience_allowed
audience_allowed-IsForClient audience client_ids h =
    let allowed = filter (λ id. not (str_eq id "")) (map trim_space client_ids) in
    let (a, m, p) = any→In (λ a. any (λ id. str_eq id (trim_space a)) allowed) audience h in
    let (x, n, q) = any→In (λ id. str_eq id (trim_space a)) allowed p in
    let (id, k, b, e) = filter-IsTrimmed client_ids x n in
    (a, id, m, k, b, sym (e ∙ (eq_iff x (trim_space a)).0 q))
