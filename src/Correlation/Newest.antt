-- ===== src/Correlation/Newest.antt =====
-- The newest row that matches, in a table to which a row is appended.
use testingmulti.Common.{OnSome-map}
use testingmulti.Common.{OnSome, any, is_some, ltb, refl, true}
use testingmulti.Correlation.{CorrelationRow, later, newest}
use testingmulti.Common.{
  Bool, Bool-cases, List, Option, [], arith, if◌then◌else◌, inl, inr, none, some, ◌++◌, ◌∷◌, ◌≡◌,
}
use mathlib.Core.List.{Memᴰ}

later_some : (row : CorrelationRow) (o : Option CorrelationRow) → ¬ (later row o ≡ none)
later_some row none h = cc
later_some row (some other) h = ground (arith, h)

module _ (p : CorrelationRow → Bool) where
  -- Where no row matches, an appended row that matches is found.
  pub newest_appended :
      (rows : List CorrelationRow) (row : CorrelationRow)
      → newest p rows ≡ none
      → newest p (rows ++ row ∷ []) ≡ (if p row then some row else none)
  unfolding newest
  newest_appended [] row h = ground arith
  newest_appended (r ∷ rows) row h = elim (Bool-cases (p r)) [
    | inl hit ↦ absurd (later_some r (newest p rows) (rw hit at h))
    | inr miss ↦ rw miss (newest_appended rows row (rw miss at h))
  ]

later-OnSome :
    (P : CorrelationRow → Type 0) (row : CorrelationRow) (o : Option CorrelationRow)
    → P row
    → OnSome P o
    → OnSome P (later row o)
later-OnSome P row none h k = h
later-OnSome P row (some other) h k = elim (Bool-cases (ltb row.updated_at other.updated_at)) [
  | inl older ↦ rw older k
  | inr newer ↦ rw newer h
]

is_some-later : (row : CorrelationRow) (o : Option CorrelationRow) → is_some (later row o) ≡ true
is_some-later row none = refl
is_some-later row (some other) = ground arith

module _ (p : CorrelationRow → Bool) where
  -- The row that is found matches.
  pub newest-OnSome : (rows : List CorrelationRow) → OnSome (λ row. p row ≡ true) (newest p rows)
  unfolding newest
  newest-OnSome [] = tt
  newest-OnSome (r ∷ rows) = elim (Bool-cases (p r)) [
    | inl hit ↦
        rw hit (later-OnSome (λ row. p row ≡ true) r (newest p rows) hit (newest-OnSome rows))
    | inr miss ↦ rw miss (newest-OnSome rows)
  ]

  -- A row is found exactly if one matches.
  pub is_some-newest : (rows : List CorrelationRow) → is_some (newest p rows) ≡ any p rows
  unfolding newest
  is_some-newest [] = refl
  is_some-newest (r ∷ rows) = elim (Bool-cases (p r)) [
    | inl hit ↦ rw hit (is_some-later r (newest p rows))
    | inr miss ↦ rw miss (is_some-newest rows)
  ]

  -- The row that is found stands in the table.
  pub newest-Mem : (rows : List CorrelationRow) → OnSome (λ row. Memᴰ row rows) (newest p rows)
  unfolding newest
  newest-Mem [] = tt
  newest-Mem (r ∷ rows) =
      let further = OnSome-map (λ _ m. Memᴰ.tail m) (newest p rows) (newest-Mem rows) in
      elim (Bool-cases (p r)) [
        | inl hit ↦
            rw hit
              (later-OnSome (λ row. Memᴰ row (r ∷ rows)) r (newest p rows) (Memᴰ.head refl) further)
        | inr miss ↦ rw miss further
      ]
