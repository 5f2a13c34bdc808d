-- ===== src/Importing/EarlyStop.antt =====
-- ml/import_intel_lab_dataset.py: the loop of `_load_txt` may break early, since no later line adds a
-- row.
use trust_aware_self_healing.Shared.{
  ℕ, ◌≤◌, ◌≡◌, refl, sym, ap, ◌∙◌, Bool, true, inl, inr, Bool-cases, Option, none, some, List, [],
  ◌∷◌, length, leb, arith,
}
use trust_aware_self_healing.Importing.Scan.{
  Scan, Turn, next, stop, member, rows_of, touch, append_row, all_full, is_complete, keep,
  is_wanted, turn, scan, load_txt,
}

abbrev after_of : {M R : Type 0} → Turn M R → Scan M R
after_of (next acc) = acc
after_of (stop acc) = acc

module _ {M R L : Type 0} (same : M → M → Bool) (automatic : Bool) (max_motes limit : ℕ)
    (parse : L → Option (M × R)) where
  -- The loop without its `break`.
  unfoldable pub scan_all : List L → Scan M R → Scan M R
  scan_all [] acc = acc
  scan_all (line ∷ lines) acc =
      scan_all lines (after_of (turn same automatic max_motes limit (parse line) acc))

module _ {M R : Type 0} (same : M → M → Bool) where
  touch-present :
      (mote : M) (groups : List (M × List R))
      → 1 ≤ length (rows_of same mote groups)
      → touch same mote groups ≡ groups
  touch-present mote [] h = ground arith
  touch-present mote ((m, rows) ∷ rest) h = elim (Bool-cases (same m mote)) [
    | inl e ↦ rw e refl
    | inr e ↦ rw e (ap (λ g. (m, rows) ∷ g) (touch-present mote rest (ground arith)))
  ]

  module _ (lawful : (a b : M) → same a b ≡ true → a ≡ b) (automatic : Bool)
      (max_motes limit : ℕ) where
    all_full-member :
        (mote : M) (groups : List (M × List R)) (motes : List M)
        → all_full same automatic max_motes limit groups motes ≡ true
        → member same mote motes ≡ true
        → limit ≤ length (rows_of same mote groups)
    all_full-member mote groups [] full h = cc
    all_full-member mote groups (m ∷ ms) full h = elim (Bool-cases (same m mote)) [
      | inl e ↦ first (lawful m mote e)
      | inr e ↦ all_full-member mote groups ms (ground arith) (ground arith)
    ]
      where
        first : m ≡ mote → limit ≤ length (rows_of same mote groups)
        first e = rw (← e) (ground arith)

    -- All the motes have their rows, and at least one each.
    record Complete (acc : Scan M R) : Type 0 where
      chosen : automatic ≡ true
      enough : leb max_motes (length acc.selected_motes) ≡ true
      full : all_full same automatic max_motes limit acc.rows_by_mote acc.selected_motes ≡ true
      positive : 1 ≤ limit

    turn-Complete :
        (o : Option (M × R)) (acc : Scan M R)
        → Complete acc
        → let after = after_of (turn same automatic max_motes limit o acc) in
          (after.rows_by_mote ≡ acc.rows_by_mote) × (after.selected_motes ≡ acc.selected_motes)
    unfolding turn
    turn-Complete none acc h = (refl, refl)
    turn-Complete (some (mote, row)) acc h =
        elim (Bool-cases (member same mote acc.selected_motes)) [
          | inl e ↦
              let filled = all_full-member mote acc.rows_by_mote acc.selected_motes h.full e in
              let at_limit : leb limit (length (rows_of same mote acc.rows_by_mote)) ≡ true =
                ground arith in
              rw (e, h.chosen, at_limit, touch-present mote acc.rows_by_mote (ground arith))
                (refl, refl)
          | inr e ↦ rw (e, h.chosen, h.enough) (refl, refl)
        ]

    -- What a turn that breaks has reached.
    abbrev Stopped : Turn M R → Type 0
    Stopped (next acc) = Unit {0}
    Stopped (stop acc) = Complete acc

    keep-Stopped :
        (mote : M) (row : R) (acc : Scan M R)
        → Stopped (keep same automatic max_motes limit mote row acc)
    keep-Stopped mote row acc =
        elim (Bool-cases (leb limit (length (rows_of same mote acc.rows_by_mote)))) [
          | inl e ↦ rw e tt
          | inr e ↦ elim (Bool-cases (is_complete same automatic max_motes limit after)) [
            | inl c ↦
                rw (e, c)
                  (record {
                    chosen = ground arith;
                    enough = ground arith;
                    full = ground arith;
                    positive = ground arith;
                  })
            | inr c ↦ rw (e, c) tt
          ]
        ]
      where
        after : Scan M R
        after = record acc { rows_by_mote = append_row same mote row acc.rows_by_mote }

    turn-Stopped :
        (o : Option (M × R)) (acc : Scan M R) → Stopped (turn same automatic max_motes limit o acc)
    unfolding turn
    turn-Stopped none acc = tt
    turn-Stopped (some (mote, row)) acc =
        elim (Bool-cases (is_wanted same automatic max_motes limit mote acc)) [
          | inl e ↦ rw e (keep-Stopped mote row _)
          | inr e ↦ rw e tt
        ]

    kept_Complete :
        (acc after : Scan M R)
        → after.rows_by_mote ≡ acc.rows_by_mote
        → after.selected_motes ≡ acc.selected_motes
        → Complete acc
        → Complete after
    kept_Complete acc after rows motes h = record {
      chosen = h.chosen;
      enough = rw motes h.enough;
      full = rw (rows, motes) h.full;
      positive = h.positive;
    }

    module _ {L : Type 0} (parse : L → Option (M × R)) where
      scan_all-Complete :
          (lines : List L) (acc : Scan M R)
          → Complete acc
          → (scan_all same automatic max_motes limit parse lines acc).rows_by_mote
            ≡ acc.rows_by_mote
      unfolding scan_all
      scan_all-Complete [] acc h = refl
      scan_all-Complete (line ∷ lines) acc h =
          let (rows, motes) = turn-Complete (parse line) acc h in
          scan_all-Complete lines _ (kept_Complete acc _ rows motes h) ∙ rows

      scan-scan_all :
          (lines : List L) (acc : Scan M R)
          → (scan same automatic max_motes limit parse lines acc).rows_by_mote
            ≡ (scan_all same automatic max_motes limit parse lines acc).rows_by_mote
      unfolding scan scan_all
      scan-scan_all [] acc = refl
      scan-scan_all (line ∷ lines) acc =
          by_turn (turn same automatic max_motes limit (parse line) acc)
            (turn-Stopped (parse line) acc) (scan-scan_all lines)
        where
          by_turn :
              (t : Turn M R)
              → Stopped t
              → ((after : Scan M R)
                  → (scan same automatic max_motes limit parse lines after).rows_by_mote
                    ≡ (scan_all same automatic max_motes limit parse lines after).rows_by_mote)
              → (elim t as (λ t. Scan M R) [
                | next after ↦ scan same automatic max_motes limit parse lines after
                | stop after ↦ after
              ]).rows_by_mote
                ≡ (scan_all same automatic max_motes limit parse lines (after_of t)).rows_by_mote
          by_turn (next after) h rest = rest after
          by_turn (stop after) h rest = sym (scan_all-Complete lines after h)

      -- With a test of equality on the motes that is right: the rows that the import keeps are those
      -- that the loop without its `break` keeps, to the end of the file, whatever the motes, the limits
      -- and the lines.
      pub load_txt-scan_all :
          (mote_ids : List M) (lines : List L)
          → (load_txt same automatic max_motes limit parse mote_ids lines).0
            ≡ (scan_all same automatic max_motes limit parse lines (record {
              rows_by_mote = [];
              n_malformed = 0;
              selected_motes = mote_ids;
            })).rows_by_mote
      unfolding load_txt
      load_txt-scan_all mote_ids lines = scan-scan_all lines _
