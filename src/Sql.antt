-- ===== src/Sql.antt =====
-- The statements of SQL that the repositories send, over a table as the list of its rows.
use open_aura.Prelude.{
  ℕ, zero, suc, Bool, true, false, not, ◌&&◌, ◌||◌, Option, none, some, List, [], ◌∷◌, ◌++◌, map,
  any, filter, take, drop, ◌==◌, ltb, if◌then◌else◌,
}
pub mod Laws
pub mod Unique
pub mod Pages

-- What a table's constraints look at: the primary key, and whether two rows may not stand together
-- because of a (partial) unique index.
pub record Table (R : Type 0) : Type 0 where
  pub key : R → ℕ
  pub clash : R → R → Bool

module _ {R : Type 0} where
  -- SELECT ... WHERE p, read by QueryRow
  unfoldable pub select_one : (R → Bool) → List R → Option R
  select_one p [] = none
  select_one p (r ∷ rows) = if p r then some r else select_one p rows

  -- rows by created_at, the newest first
  unfoldable pub insert_newest : (R → ℕ) → R → List R → List R
  insert_newest created r [] = r ∷ []
  insert_newest created r (s ∷ rows) =
      let rest = insert_newest created r rows in
      if ltb (created r) (created s) then s ∷ rest else r ∷ s ∷ rows

  unfoldable pub order_newest : (R → ℕ) → List R → List R
  unfolding insert_newest
  order_newest created [] = []
  order_newest created (r ∷ rows) = insert_newest created r (order_newest created rows)

  -- SELECT ... WHERE p ORDER BY created_at DESC LIMIT limit OFFSET offset
  unfoldable pub select_page : (R → Bool) → (R → ℕ) → ℕ → ℕ → List R → List R
  unfolding order_newest
  select_page p created limit offset rows =
      take limit (drop offset (order_newest created (filter p rows)))

  -- the rows that UPDATE ... SET f WHERE p leaves
  unfoldable pub update_rows : (R → Bool) → (R → R) → List R → List R
  update_rows p f [] = []
  update_rows p f (r ∷ rows) = (if p r then f r else r) ∷ update_rows p f rows

module _ {R : Type 0} ⦃t : Table R⦄ where
  -- the primary key or a unique index refuses the row
  unfoldable pub refuses_insert : R → List R → Bool
  refuses_insert r rows = any (λ s. t.key s == t.key r || t.clash r s) rows

  -- a unique index refuses a new version of a row beside the other rows
  unfoldable pub refuses_update : (R → Bool) → (R → R) → List R → Bool
  refuses_update p f rows =
      any (λ r. p r && any (λ s. not (t.key s == t.key r) && t.clash (f r) s) rows) rows
