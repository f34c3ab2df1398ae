-- ===== src/Correlation/Together.antt =====
-- Events with the same keys meet in one run queue.
use testingmulti.Correlation.{find_existing_lifecycle_id, fresh_row}
use testingmulti.Correlation.Service.{
  Env, ensure_lifecycle_shipment_linked, link_shipment_row, resolve_shipments_row_id, uuid_or_none,
}
use testingmulti.Correlation.Again.{find-created, first_some-none, is_found_again}
use testingmulti.Common.{Bool-cases, Option-cases, ap, inl, inr, none, some, sym, true, ◌∙◌}
use testingmulti.Common.Value.{Fields, Value, str}
use testingmulti.Common.Text.{is_empty, strip}
use text.Mathlib.TextPositions.{eq_refl}
use testingmulti.Correlation.{CorrelationRow, Moment, update_shipment_id}
use testingmulti.Correlation.Again.{created}
use testingmulti.Common.{All, List, Option, String, [], false, refl, ℕ, ◌++◌, ◌==◌, ◌∷◌, ◌≡◌}

-- Linking touches no row with another id.
link_others :
    (now : ℕ) (id sid : String) (rows : List CorrelationRow) (row : CorrelationRow)
    → All (λ (r : CorrelationRow). (r.id == id) ≡ false) rows
    → (update_shipment_id now id sid (rows ++ row ∷ [])).1
      ≡ rows ++ (update_shipment_id now id sid (row ∷ [])).1
unfolding update_shipment_id
link_others now id sid [] row h = refl
link_others now id sid (r ∷ rows) row (h, hs) = rw (h, link_others now id sid rows row hs) refl

module _ (moment : Moment) (tid workflow : String) (tender_key shipment_key : Option String)
    (rows : List CorrelationRow) where
  -- A table in which the lifecycle was created, and a shipment perhaps linked to it
  abbrev pub Created : List CorrelationRow → Type 0
  Created left =
      (linked : Option String) × (time : ℕ) × (left
        ≡ rows ++ created moment tid workflow tender_key shipment_key linked time rows ∷ [])

  fresh_Created : Created (rows ++ fresh_row moment tid workflow tender_key shipment_key ∷ [])
  fresh_Created = (
    none,
    moment.now,
    ap
        (λ s.
          rows
          ++ record (fresh_row moment tid workflow tender_key shipment_key) { shipment_id = s }
            ∷ [])
        (sym (first_some-none shipment_key)),
  )

  linked_Created :
      (now : ℕ) (sid : String)
      → All (λ (r : CorrelationRow). (r.id == moment.new_id) ≡ false) rows
      → Created
          (update_shipment_id now moment.new_id sid
            (rows ++ fresh_row moment tid workflow tender_key shipment_key ∷ [])).1
  unfolding update_shipment_id
  linked_Created now sid others = elim (Option-cases shipment_key) [
    | inl missing ↦ (
      some sid,
      now,
      link_others now moment.new_id sid rows (fresh_row moment tid workflow tender_key shipment_key)
            others
          ∙ rw (missing, eq_refl moment.new_id) refl,
    )
    | inr (k, e) ↦ (
      none,
      moment.now,
      link_others now moment.new_id sid rows (fresh_row moment tid workflow tender_key shipment_key)
            others
          ∙ rw (e, eq_refl moment.new_id) refl,
    )
  ]

  -- The lifecycle is found again in such a table.
  pub find-Created :
      (left : List CorrelationRow)
      → find_existing_lifecycle_id tid workflow tender_key shipment_key rows ≡ none
      → is_found_again workflow tender_key shipment_key ≡ true
      → Created left
      → find_existing_lifecycle_id tid workflow tender_key shipment_key left ≡ some moment.new_id
  find-Created left h again (linked, time, e) =
      rw e (
        find-created moment tid workflow tender_key shipment_key linked time rows h ∙ rw again refl)

  module _ (env : Env) where
    link-Created :
        (now : ℕ) (v : Value)
        → strip moment.new_id ≡ moment.new_id
        → All (λ (r : CorrelationRow). (r.id == moment.new_id) ≡ false) rows
        → Created
            (link_shipment_row env now moment.new_id v
              (rows ++ fresh_row moment tid workflow tender_key shipment_key ∷ [])).1
    link-Created now v named others = elim (Option-cases (uuid_or_none env v)) [
      | inl missing ↦ rw missing fresh_Created
      | inr (sid, e) ↦ elim (Bool-cases (is_empty (strip moment.new_id))) [
        | inl blank ↦ rw (e, blank) fresh_Created
        | inr ok_ ↦ rw (e, ok_, named) (linked_Created now sid others)
      ]
    ]

    pub ensure-Created :
        (now : ℕ) (tenant_id : String) (payload : Fields)
        → strip moment.new_id ≡ moment.new_id
        → All (λ (r : CorrelationRow). (r.id == moment.new_id) ≡ false) rows
        → Created
            (ensure_lifecycle_shipment_linked env now moment.new_id tenant_id payload
              (rows ++ fresh_row moment tid workflow tender_key shipment_key ∷ [])).1
    unfolding ensure_lifecycle_shipment_linked
    ensure-Created now tenant_id payload named others =
        elim (Option-cases (resolve_shipments_row_id env tenant_id payload)) [
          | inl missing ↦ rw (missing, ensure_lifecycle_shipment_linked) fresh_Created
          | inr (s, e) ↦
              rw (e, ensure_lifecycle_shipment_linked) (link-Created now (str s) named others)
        ]
