-- ===== src/Sql/Unique.antt =====
-- Unique indexes: no two rows clash.
use open_aura.Prelude.{
  ◌≡◌, sym, subst, ◌∙◌, false≢true, Bool, true, false, ◌==◌, List, [], ◌∷◌, ◌++◌, All, In,
  All-append, arith, Bool-cases, inl, inr,
}
use open_aura.Sql.{Table, update_rows, refuses_insert}

module _ {R : Type 0} (clash : R → R → Bool) where
  -- No row clashes with a later one.
  abbrev pub NoClash : List R → Type 0
  NoClash [] = Unit
  NoClash (r ∷ rows) = All (λ s. clash s r ≡ false) rows × NoClash rows

  pub NoClash-append :
      (rows : List R) (r : R)
      → All (λ s. clash r s ≡ false) rows
      → NoClash rows
      → NoClash (rows ++ r ∷ [])
  NoClash-append [] r h k = (tt, tt)
  NoClash-append (s ∷ rows) r h k = (
    All-append (λ x. clash x s ≡ false) rows (r ∷ []) k.0 (h.0, tt),
    NoClash-append rows r h.1 k.1,
  )

  All-clash-update_rows :
      (p : R → Bool) (f : R → R)
      → ((r s : R) → clash r s ≡ false → clash (f r) s ≡ false)
      → (s : R) (rows : List R) → All (λ x. clash x s ≡ false) rows
      → All (λ x. clash x s ≡ false) (update_rows p f rows)
  unfolding update_rows
  All-clash-update_rows p f k s [] h = tt
  All-clash-update_rows p f k s (r ∷ rows) h = elim (Bool-cases (p r)) [
    | inl e ↦ rw e (k r s h.0, All-clash-update_rows p f k s rows h.1)
    | inr e ↦ rw e (h.0, All-clash-update_rows p f k s rows h.1)
  ]

  -- An UPDATE that makes no clash leaves none.
  pub NoClash-update_rows :
      (p : R → Bool) (f : R → R) (rows : List R)
      → ((r s : R) → clash r s ≡ false → clash (f r) s ≡ false)
      → ((r s : R) → clash r s ≡ false → clash r (f s) ≡ false)
      → NoClash rows
      → NoClash (update_rows p f rows)
  unfolding update_rows
  NoClash-update_rows p f [] k l h = tt
  NoClash-update_rows p f (r ∷ rows) k l h = elim (Bool-cases (p r)) [
    | inl e ↦ rw e (
      All-clash-update_rows p f k (f r) rows (later rows h.0),
      NoClash-update_rows p f rows k l h.1,
    )
    | inr e ↦ rw e (All-clash-update_rows p f k r rows h.0, NoClash-update_rows p f rows k l h.1)
  ]
    where
      later : (xs : List R) → All (λ x. clash x r ≡ false) xs → All (λ x. clash x (f r) ≡ false) xs
      later [] h = tt
      later (x ∷ xs) h = (l x r h.0, later xs h.1)

module _ {R : Type 0} ⦃t : Table R⦄ where
  -- A row that the constraints accept has a new key, and clashes with no row.
  pub accepted_row :
      (r : R) (rows : List R)
      → refuses_insert r rows ≡ false
      → All (λ s. (t.key s == t.key r) ≡ false) rows × All (λ s. t.clash r s ≡ false) rows
  unfolding refuses_insert
  accepted_row r [] h = (tt, tt)
  accepted_row r (s ∷ rows) h =
      let rest = accepted_row r rows (ground arith) in
      ((ground arith, rest.0), (ground arith, rest.1))

module _ {R : Type 0} (clash : R → R → Bool) where
  clash_free :
      (r s : R) (rows : List R) → In s rows → All (λ x. clash x r ≡ false) rows → clash s r ≡ false
  clash_free r s [] m h = absurd m
  clash_free r s (x ∷ rows) (inl e) h = subst (λ y. clash y r ≡ false) e h.0
  clash_free r s (x ∷ rows) (inr m) h = clash_free r s rows m h.1

  -- Rows that clash are one row.
  pub NoClash-same :
      (r s : R) (rows : List R)
      → NoClash clash rows
      → In r rows
      → In s rows
      → clash r s ≡ true
      → clash s r ≡ true
      → r ≡ s
  NoClash-same r s [] h m n e f = absurd m
  NoClash-same r s (x ∷ rows) h (inl a) (inl b) e f = sym a ∙ b
  NoClash-same r s (x ∷ rows) h (inl a) (inr b) e f = absurd (
      false≢true
        (sym (clash_free r s rows b (subst (λ y. All (λ z. clash z y ≡ false) rows) a h.0)) ∙ f))
  NoClash-same r s (x ∷ rows) h (inr a) (inl b) e f = absurd (
      false≢true
        (sym (clash_free s r rows a (subst (λ y. All (λ z. clash z y ≡ false) rows) b h.0)) ∙ e))
  NoClash-same r s (x ∷ rows) h (inr a) (inr b) e f = NoClash-same r s rows h.1 a b e f
