-- ===== src/Correlation/Again.antt =====
-- What happens when the same keys are resolved again.
use testingmulti.Correlation.{resolve_or_create}
use testingmulti.Common.{subst}
use testingmulti.Correlation.{find_shipment_first, shipment_first}
use testingmulti.Common.{Option-cases, arith, true, ◌∙◌}
use testingmulti.Correlation.{fetch_by, find_existing_lifecycle_id, of_shipment, of_tender}
use testingmulti.Correlation.{
  CorrelationRow, Moment, fetch_lifecycle_id, fresh_row, id_of, newest, of_tenant_workflow,
}
use testingmulti.Correlation.Newest.{newest_appended}
use testingmulti.Common.{
  Bool, Bool-cases, List, Option, String, [], false, first_some, if◌then◌else◌, inl, inr, is_some,
  none, refl, some, ℕ, ◌&&◌, ◌++◌, ◌==◌, ◌||◌, ◌∷◌, ◌≡◌,
}
use text.Mathlib.TextPositions.{eq_refl}

-- Whether a lifecycle that was just created is found again, by its workflow and the keys it was created
-- with: a rate confirmation is not, since a comparison with a missing sub-status is not true.
abbrev pub is_found_again : String → Option String → Option String → Bool
is_found_again workflow_name tender_id shipment_id =
    if workflow_name == "ratecon"
    then false
    else if workflow_name == "pod_lifecycle"
    then is_some shipment_id
    else is_some tender_id || is_some shipment_id

none_of_id : (o : Option CorrelationRow) → id_of o ≡ none → o ≡ none
none_of_id none h = refl
none_of_id (some row) h = absurd (cc)

abbrev matches_key : (String → CorrelationRow → Bool) → Option String → CorrelationRow → Bool
matches_key column none row = false
matches_key column (some key) row = column key row

first_none : (a b : Option String) → first_some a b ≡ none → (a ≡ none) × (b ≡ none)
first_none none b h = (refl, h)
first_none (some x) b h = absurd (cc)

module _ (moment : Moment) (tid workflow : String) (tender shipment : Option String)
    (linked : Option String) (time : ℕ) (rows : List CorrelationRow) where
  -- The row that a creation leaves, with a shipment linked to it if it had none
  abbrev pub created : CorrelationRow
  created = record (fresh_row moment tid workflow tender shipment) {
    shipment_id = first_some shipment linked;
    updated_at = time;
  }

  fetched :
      (extra : CorrelationRow → Bool)
      → fetch_lifecycle_id tid workflow extra rows ≡ none
      → fetch_lifecycle_id tid workflow extra (rows ++ created ∷ [])
        ≡ (if extra created then some moment.new_id else none)
  fetched extra h =
      let p : CorrelationRow → Bool = λ row. of_tenant_workflow tid workflow row && extra row in
      let appended = newest_appended p rows created (none_of_id (newest p rows) h) in
      elim (Bool-cases (extra created)) [
        | inl hit ↦ rw (appended, eq_refl tid, eq_refl workflow, hit) refl
        | inr miss ↦ rw (appended, eq_refl tid, eq_refl workflow, miss) refl
      ]

  found_by :
      (column : String → CorrelationRow → Bool) (key : Option String)
      → fetch_by tid workflow column key rows ≡ none
      → fetch_by tid workflow column key (rows ++ created ∷ [])
        ≡ (if matches_key column key created then some moment.new_id else none)
  found_by column none h = refl
  found_by column (some k) h = fetched (column k) h

  found_rate :
      (key : Option String)
      → (workflow == "ratecon") ≡ true
      → find_shipment_first tid workflow key rows ≡ none
      → find_shipment_first tid workflow key (rows ++ created ∷ []) ≡ none
  found_rate none rate h = refl
  found_rate (some k) rate h = fetched (shipment_first workflow k) h ∙ ground (arith, rate)

  found_pod :
      (workflow == "ratecon") ≡ false
      → find_shipment_first tid workflow shipment rows ≡ none
      → find_shipment_first tid workflow shipment (rows ++ created ∷ [])
        ≡ (if is_some shipment then some moment.new_id else none)
  found_pod other h = elim (Option-cases shipment) [
    | inl missing ↦ rw missing refl
    | inr (k, e) ↦
        let h' = rw e at h in
        rw e (rw e at (fetched (shipment_first workflow k) h') ∙ rw (other, eq_refl k) refl)
  ]

  both_keys :
      first_some
        (if matches_key of_tender tender created then some moment.new_id else none)
        (if matches_key of_shipment shipment created then some moment.new_id else none)
      ≡ (if is_some tender || is_some shipment then some moment.new_id else none)
  both_keys = elim (Option-cases tender) [
    | inl e ↦ elim (Option-cases shipment) [
      | inl f ↦ rw (e, f) refl
      | inr (k, f) ↦ rw (e, f, eq_refl k) refl
    ]
    | inr (t, e) ↦ rw (e, eq_refl t) refl
  ]

  -- A lifecycle that was created is found again, or not.
  pub find-created :
      find_existing_lifecycle_id tid workflow tender shipment rows ≡ none
      → find_existing_lifecycle_id tid workflow tender shipment (rows ++ created ∷ [])
        ≡ (if is_found_again workflow tender shipment then some moment.new_id else none)
  unfolding find_existing_lifecycle_id
  find-created h = elim (Bool-cases (workflow == "ratecon")) [
    | inl rate ↦ rw rate (found_rate shipment rate (rw rate at h))
    | inr other ↦ elim (Bool-cases (workflow == "pod_lifecycle")) [
      | inl pod ↦ rw (other, pod) (found_pod other (rw (other, pod) at h))
      | inr rest ↦
          let (no_tender, no_shipment) = first_none _ _ (rw (other, rest) at h) in
          rw
            (
              other,
              rest,
              found_by of_tender tender no_tender,
              found_by of_shipment shipment no_shipment,
            )
            both_keys
    ]
  ]

pub first_some-none : (o : Option String) → first_some o none ≡ o
first_some-none none = refl
first_some-none (some a) = refl

module _ (moment : Moment) (tid workflow : String) (tender shipment : Option String)
    (rows : List CorrelationRow) where
  find-fresh :
      find_existing_lifecycle_id tid workflow tender shipment rows ≡ none
      → find_existing_lifecycle_id tid workflow tender shipment
          (rows ++ fresh_row moment tid workflow tender shipment ∷ [])
        ≡ (if is_found_again workflow tender shipment then some moment.new_id else none)
  find-fresh h =
      subst
        (λ s.
          find_existing_lifecycle_id tid workflow tender shipment (
            rows ++ record (fresh_row moment tid workflow tender shipment) { shipment_id = s } ∷ [])
          ≡ (if is_found_again workflow tender shipment then some moment.new_id else none))
        (first_some-none shipment)
        (find-created moment tid workflow tender shipment none moment.now rows h)

  pub created_row :
      find_existing_lifecycle_id tid workflow tender shipment rows ≡ none
      → resolve_or_create moment tid workflow tender shipment rows
        ≡ ((moment.new_id, false), rows ++ fresh_row moment tid workflow tender shipment ∷ [])
  unfolding resolve_or_create
  created_row h = rw (h, resolve_or_create) refl

  pub existing_row :
      (id : String)
      → find_existing_lifecycle_id tid workflow tender shipment rows ≡ some id
      → resolve_or_create moment tid workflow tender shipment rows ≡ ((id, true), rows)
  unfolding resolve_or_create
  existing_row id h = rw (h, resolve_or_create) refl

-- Resolving the same keys again gives the same lifecycle and writes nothing, if the first call found it
-- or created one that is found again. If not, which is so for a rate confirmation that was created and
-- where no key is given, the second call creates another one.
pub resolve_or_create-Again :
    (moment next : Moment) (tid workflow : String) (tender shipment : Option String)
    (rows : List CorrelationRow)
    → let ((id, existed), left) = resolve_or_create moment tid workflow tender shipment rows in
      resolve_or_create next tid workflow tender shipment left ≡ (
        if existed || is_found_again workflow tender shipment
        then ((id, true), left)
        else ((next.new_id, false), left ++ fresh_row next tid workflow tender shipment ∷ []))
resolve_or_create-Again moment next tid workflow tender shipment rows =
    elim (Option-cases (find_existing_lifecycle_id tid workflow tender shipment rows)) [
      | inr (id, e) ↦
          rw (existing_row moment tid workflow tender shipment rows id e)
            (existing_row next tid workflow tender shipment rows id e)
      | inl e ↦
          let fresh = find-fresh moment tid workflow tender shipment rows e in
          elim (Bool-cases (is_found_again workflow tender shipment)) [
            | inl again ↦
                rw (created_row moment tid workflow tender shipment rows e, again)
                  (existing_row next tid workflow tender shipment _ moment.new_id
                    (fresh ∙ rw again refl))
            | inr never ↦
                rw (created_row moment tid workflow tender shipment rows e, never)
                  (created_row next tid workflow tender shipment _ (fresh ∙ rw never refl))
          ]
    ]
