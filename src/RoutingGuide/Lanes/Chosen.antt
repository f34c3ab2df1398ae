-- ===== src/RoutingGuide/Lanes/Chosen.antt =====
-- Which lane is chosen: the only row of the partner.
use testingmulti.RoutingGuide.Lanes.{gelita_select_lane, only_one}
use testingmulti.Common.Text.{is_empty, strip}
use testingmulti.Common.{false, some, ◌↔◌}
use testingmulti.RoutingGuide.Lanes.{Matcher, RoutingGuideRow, matched_rows, row_matches}
use testingmulti.Common.{
  Bool-cases, List, String, [], ap, inl, inr, refl, sym, true, ◌++◌, ◌∙◌, ◌∷◌, ◌≡◌,
}

module _ (py : Matcher) (label : String) where
  -- The row is the only one that matches, at its place.
  abbrev pub OnlyMatch : List RoutingGuideRow → RoutingGuideRow → Type 0
  OnlyMatch rows row =
      (before : List RoutingGuideRow) × (after : List RoutingGuideRow) × (rows
        ≡ before ++ row ∷ after)
      × (matched_rows py label before ≡ [])
      × (row_matches py label row ≡ true)
      × (matched_rows py label after ≡ [])

  head_eq : (a b : RoutingGuideRow) (xs ys : List RoutingGuideRow) → a ∷ xs ≡ b ∷ ys → a ≡ b
  head_eq a b xs ys h = cc

  OnlyMatch-of_matched :
      (rows : List RoutingGuideRow) (row : RoutingGuideRow)
      → matched_rows py label rows ≡ row ∷ []
      → OnlyMatch rows row
  OnlyMatch-of_matched [] row h = absurd (cc)
  OnlyMatch-of_matched (r ∷ rows) row h = elim (Bool-cases (row_matches py label r)) [
    | inl hit ↦
        let e : r ∷ matched_rows py label rows ≡ row ∷ [] = rw hit at h in
        let same : r ≡ row = cc in
        let rest : matched_rows py label rows ≡ [] = cc in
        ([], rows, ap (λ x. x ∷ rows) same, refl, ap (row_matches py label) (sym same) ∙ hit, rest)
    | inr miss ↦
        let e : matched_rows py label rows ≡ row ∷ [] = rw miss at h in
        let (before, after, split, none_before, hit, none_after) =
          OnlyMatch-of_matched rows row e in
        (r ∷ before, after, ap (λ x. r ∷ x) split, rw miss none_before, hit, none_after)
  ]

  matched_of_only :
      (before after : List RoutingGuideRow) (row : RoutingGuideRow)
      → matched_rows py label before ≡ []
      → row_matches py label row ≡ true
      → matched_rows py label after ≡ []
      → matched_rows py label (before ++ row ∷ after) ≡ row ∷ []
  matched_of_only [] after row h hit k = rw (hit, k) refl
  matched_of_only (r ∷ before) after row h hit k = elim (Bool-cases (row_matches py label r)) [
    | inl found ↦ let e = rw found at h in absurd (cc)
    | inr miss ↦ rw miss (matched_of_only before after row (rw miss at h) hit k)
  ]

only_one-singleton :
    (rows : List RoutingGuideRow) (row : RoutingGuideRow)
    → only_one rows ≡ some row
    → rows ≡ row ∷ []
only_one-singleton [] row h = absurd (cc)
only_one-singleton (r ∷ []) row h = let same : r ≡ row = cc in ap (λ x. x ∷ []) same
only_one-singleton (r ∷ s ∷ rows) row h = absurd (cc)

module _ (py : Matcher) where
  -- Among several rows, a row is chosen exactly if the label is not blank and it is the only row that
  -- matches the label.
  pub gelita_select_lane-OnlyMatch :
      (first second : RoutingGuideRow) (rows : List RoutingGuideRow) (label : String)
      (row : RoutingGuideRow)
      → (gelita_select_lane py (first ∷ second ∷ rows) label ≡ some row) ↔ (
          (is_empty (strip label) ≡ false) × OnlyMatch py (strip label) (first ∷ second ∷ rows) row)
  unfolding gelita_select_lane
  gelita_select_lane-OnlyMatch first second rows label row =
      elim (Bool-cases (is_empty (strip label))) [
        | inl blank ↦ ((λ h. let e = rw blank at h in absurd (cc)), (λ h. absurd (cc)))
        | inr named ↦ (
          (λ h. (
            named,
            OnlyMatch-of_matched py (strip label) (first ∷ second ∷ rows) row
                (only_one-singleton _ row (rw named at h)),
          )),
          (λ h.
              let (_, (before, after, split, none_before, hit, none_after)) = h in
              let only =
                matched_of_only py (strip label) before after row none_before hit none_after in
              rw named (ap (λ x. only_one (matched_rows py (strip label) x)) split ∙ rw only refl)),
        )
      ]
