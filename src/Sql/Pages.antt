-- ===== src/Sql/Pages.antt =====
-- What a page of a list holds.
use open_aura.Prelude.{
  ◌≡◌, ℕ, zero, suc, ◌≤◌, Bool, true, List, [], ◌∷◌, length, take, drop, filter, ltb, All, All-take,
  All-drop, length-take-le, arith, Bool-cases, inl, inr,
}
use open_aura.Sql.{insert_newest, order_newest, select_page}

module _ {R : Type 0} (created : R → ℕ) where
  -- Newest first.
  abbrev pub IsNewestFirst : List R → Type 0
  IsNewestFirst [] = Unit
  IsNewestFirst (r ∷ rows) = All (λ s. created s ≤ created r) rows × IsNewestFirst rows

  module _ (P : R → Type 0) where
    All-insert_newest :
        (r : R) (rows : List R) → P r → All P rows → All P (insert_newest created r rows)
    unfolding insert_newest
    All-insert_newest r [] h k = (h, tt)
    All-insert_newest r (s ∷ rows) h k = elim (Bool-cases (ltb (created r) (created s))) [
      | inl e ↦ rw e (k.0, All-insert_newest r rows h k.1)
      | inr e ↦ rw e (h, k)
    ]

    All-order_newest : (rows : List R) → All P rows → All P (order_newest created rows)
    unfolding order_newest
    All-order_newest [] h = tt
    All-order_newest (r ∷ rows) h = All-insert_newest r _ h.0 (All-order_newest rows h.1)

  All-le :
      (m n : ℕ) (rows : List R)
      → m ≤ n
      → All (λ s. created s ≤ m) rows
      → All (λ s. created s ≤ n) rows
  All-le m n [] h k = tt
  All-le m n (r ∷ rows) h k = (omega (arith, k.0), All-le m n rows h k.1)

  insert_newest-IsNewestFirst :
      (r : R) (rows : List R) → IsNewestFirst rows → IsNewestFirst (insert_newest created r rows)
  unfolding insert_newest
  insert_newest-IsNewestFirst r [] h = (tt, tt)
  insert_newest-IsNewestFirst r (s ∷ rows) h = elim (Bool-cases (ltb (created r) (created s))) [
    | inl e ↦ rw e (
      All-insert_newest (λ x. created x ≤ created s) r rows (ground arith) h.0,
      insert_newest-IsNewestFirst r rows h.1,
    )
    | inr e ↦
        let le : created s ≤ created r = ground arith in
        rw e ((le, All-le (created s) (created r) rows le h.0), h)
  ]

  order_newest-IsNewestFirst : (rows : List R) → IsNewestFirst (order_newest created rows)
  unfolding order_newest
  order_newest-IsNewestFirst [] = tt
  order_newest-IsNewestFirst (r ∷ rows) =
      insert_newest-IsNewestFirst r _ (order_newest-IsNewestFirst rows)

  take-IsNewestFirst : (n : ℕ) (rows : List R) → IsNewestFirst rows → IsNewestFirst (take n rows)
  take-IsNewestFirst zero rows h = tt
  take-IsNewestFirst (suc n) [] h = tt
  take-IsNewestFirst (suc n) (r ∷ rows) h =
      (All-take (λ s. created s ≤ created r) n rows h.0, take-IsNewestFirst n rows h.1)

  drop-IsNewestFirst : (n : ℕ) (rows : List R) → IsNewestFirst rows → IsNewestFirst (drop n rows)
  drop-IsNewestFirst zero rows h = h
  drop-IsNewestFirst (suc n) [] h = tt
  drop-IsNewestFirst (suc n) (r ∷ rows) h = drop-IsNewestFirst n rows h.1

  All-filter : (p : R → Bool) (rows : List R) → All (λ r. p r ≡ true) (filter p rows)
  All-filter p [] = tt
  All-filter p (r ∷ rows) = elim (Bool-cases (p r)) [
    | inl e ↦ rw e (e, All-filter p rows)
    | inr e ↦ rw e (All-filter p rows)
  ]

  -- A page has at most `limit` rows, all of them wanted, the newest first.
  pub record IsPage (p : R → Bool) (limit : ℕ) (rows : List R) : Type 0 where
    pub short : length rows ≤ limit
    pub wanted : All (λ r. p r ≡ true) rows
    pub newest_first : IsNewestFirst rows

  pub select_page-IsPage :
      (p : R → Bool) (limit offset : ℕ) (rows : List R)
      → IsPage p limit (select_page p created limit offset rows)
  unfolding select_page
  select_page-IsPage p limit offset rows =
      let sorted = order_newest created (filter p rows) in
      record {
        short = length-take-le limit (drop offset sorted);
        wanted =
            All-take _ limit (drop offset sorted)
              (All-drop _ offset sorted (All-order_newest _ (filter p rows) (All-filter p rows)));
        newest_first =
            take-IsNewestFirst limit (drop offset sorted)
              (drop-IsNewestFirst offset sorted (order_newest-IsNewestFirst (filter p rows)));
      }
