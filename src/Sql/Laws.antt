-- ===== src/Sql/Laws.antt =====
-- Laws of the statements, for the invariants.
use open_aura.Prelude.{
  ◌≡◌, refl, false≢true, Bool, true, false, none, some, List, [], ◌∷◌, ◌++◌, All, In, any, filter,
  length, arith, Bool-cases, inl, inr,
}
use open_aura.Sql.{select_one, update_rows}

module _ {R : Type 0} where
  -- What holds of a row, and of each row as it is rewritten, holds after an UPDATE.
  pub All-update_rows :
      (P : R → Type 0) (p : R → Bool) (f : R → R) (rows : List R)
      → ((r : R) → P r → p r ≡ true → P (f r))
      → All P rows
      → All P (update_rows p f rows)
  unfolding update_rows
  All-update_rows P p f [] k h = tt
  All-update_rows P p f (r ∷ rows) k h = elim (Bool-cases (p r)) [
    | inl e ↦ rw e (k r h.0 e, All-update_rows P p f rows k h.1)
    | inr e ↦ rw e (h.0, All-update_rows P p f rows k h.1)
  ]

  pub All-imp : (P Q : R → Type 0) (rows : List R) → ((r : R) → P r → Q r) → All P rows → All Q rows
  All-imp P Q [] k h = tt
  All-imp P Q (r ∷ rows) k h = (k r h.0, All-imp P Q rows k h.1)

  -- The rows that are selected and the ones that are rewritten do not meet.
  pub filter-update_rows :
      (q p : R → Bool) (f : R → R) (rows : List R)
      → ((r : R) → p r ≡ true → (q r ≡ false) × (q (f r) ≡ false))
      → filter q (update_rows p f rows) ≡ filter q rows
  unfolding update_rows
  filter-update_rows q p f [] k = refl
  filter-update_rows q p f (r ∷ rows) k = elim (Bool-cases (p r)) [
    | inl e ↦ rw (e, (k r e).0, (k r e).1) (filter-update_rows q p f rows k)
    | inr e ↦ rw (e, filter-update_rows q p f rows k)
  ]

  pub filter-append :
      (q : R → Bool) (xs : List R) (r : R) → q r ≡ false → filter q (xs ++ r ∷ []) ≡ filter q xs
  filter-append q [] r h = rw h
  filter-append q (x ∷ xs) r h = rw (filter-append q xs r h)

  pub select_one_sound :
      (p : R → Bool) (rows : List R) (r : R) → select_one p rows ≡ some r → In r rows × (p r ≡ true)
  unfolding select_one
  select_one_sound p [] r h = cc
  select_one_sound p (x ∷ rows) r h = elim (Bool-cases (p x)) [
    | inl e ↦ (inl (ground arith), ground arith)
    | inr e ↦ let (m, q) = select_one_sound p rows r (rw e at h) in (inr m, q)
  ]

  -- No row is left that the UPDATE marked out.
  pub select_one-update_rows :
      (q p : R → Bool) (f : R → R) (rows : List R)
      → ((r : R) → q r ≡ true → p r ≡ true)
      → ((r : R) → q (f r) ≡ false)
      → select_one q (update_rows p f rows) ≡ none
  unfolding select_one update_rows
  select_one-update_rows q p f [] k l = refl
  select_one-update_rows q p f (r ∷ rows) k l = elim (Bool-cases (p r)) [
    | inl e ↦ rw (e, l r) (select_one-update_rows q p f rows k l)
    | inr e ↦ ground (arith, k r, select_one-update_rows q p f rows k l)
  ]

  pub any-update_rows :
      (q p : R → Bool) (f : R → R) (rows : List R)
      → ((r : R) → q r ≡ true → p r ≡ true)
      → ((r : R) → q (f r) ≡ false)
      → any q (update_rows p f rows) ≡ false
  unfolding update_rows
  any-update_rows q p f [] k l = refl
  any-update_rows q p f (r ∷ rows) k l = elim (Bool-cases (p r)) [
    | inl e ↦ rw (e, l r) (any-update_rows q p f rows k l)
    | inr e ↦ ground (arith, k r, any-update_rows q p f rows k l)
  ]

  -- An UPDATE that touches no row changes nothing.
  pub update_rows_none :
      (p : R → Bool) (f : R → R) (rows : List R)
      → length (filter p rows) ≡ 0
      → update_rows p f rows ≡ rows
  unfolding update_rows
  update_rows_none p f [] h = refl
  update_rows_none p f (r ∷ rows) h = elim (Bool-cases (p r)) [
    | inl e ↦ absurd (ground arith)
    | inr e ↦ rw (e, update_rows_none p f rows (rw e at h))
  ]

  pub select_one-append :
      (p : R → Bool) (rows : List R) (r : R)
      → any p rows ≡ false
      → p r ≡ true
      → select_one p (rows ++ r ∷ []) ≡ some r
  unfolding select_one
  select_one-append p [] r n h = rw h
  select_one-append p (x ∷ rows) r n h = ground (arith, select_one-append p rows r)

  -- A row is found when there is one.
  pub any-select_one :
      (p : R → Bool) (rows : List R) → any p rows ≡ true → (r : R) × (select_one p rows ≡ some r)
  unfolding select_one
  any-select_one p [] h = absurd (false≢true h)
  any-select_one p (x ∷ rows) h = elim (Bool-cases (p x)) [
    | inl e ↦ (x, rw e)
    | inr e ↦ let (r, q) = any-select_one p rows (rw e at h) in (r, rw (e, q))
  ]
