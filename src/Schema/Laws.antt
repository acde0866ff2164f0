-- ===== src/Schema/Laws.antt =====
-- The app of a row through the statements that write.
use open_aura.Prelude.{
  ◌≡◌, refl, Bool, true, some, List, [], ◌∷◌, ◌++◌, any, ◌==◌, Bool-cases, inl, inr,
}
use open_aura.Sql.{update_rows}
use open_aura.Schema.{Uuid}
use open_aura.Schema.Constraints.{app_of}

module _ {R : Type 0} (key app : R → Uuid) (id : Uuid) where
  -- A row's app is known after a row is added.
  pub app_of-append :
      (rows ys : List R) {x : Uuid}
      → app_of key app id rows ≡ some x
      → app_of key app id (rows ++ ys) ≡ some x
  app_of-append [] ys h = cc
  app_of-append (r ∷ rows) ys h = elim (Bool-cases (key r == id)) [
    | inl e ↦ rw e (rw e at h)
    | inr e ↦ rw e (app_of-append rows ys (rw e at h))
  ]

  -- An UPDATE that leaves ids and apps alone leaves the apps of the rows alone.
  pub app_of-update_rows :
      (p : R → Bool) (f : R → R) (rows : List R)
      → ((r : R) → key (f r) ≡ key r)
      → ((r : R) → app (f r) ≡ app r)
      → app_of key app id (update_rows p f rows) ≡ app_of key app id rows
  unfolding update_rows
  app_of-update_rows p f [] k a = refl
  app_of-update_rows p f (r ∷ rows) k a = elim (Bool-cases (p r)) [
    | inl e ↦ rw (e, k r, a r, app_of-update_rows p f rows k a)
    | inr e ↦ rw (e, app_of-update_rows p f rows k a)
  ]

  -- A foreign key that finds its row finds the row's app.
  pub app_of_row :
      (rows : List R)
      → any (λ r. key r == id) rows ≡ true
      → (x : Uuid) × (app_of key app id rows ≡ some x)
  app_of_row [] h = cc
  app_of_row (r ∷ rows) h = elim (Bool-cases (key r == id)) [
    | inl e ↦ (app r, rw e)
    | inr e ↦ let (x, q) = app_of_row rows (rw e at h) in (x, rw (e, q))
  ]
