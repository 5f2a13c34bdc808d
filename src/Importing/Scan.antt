-- ===== src/Importing/Scan.antt =====
-- ml/import_intel_lab_dataset.py: `_load_txt`. A mote's id is a number of any kind that has an
-- equality, and `parse` stands for `_parse_line`, whose text functions are Python's.
use trust_aware_self_healing.Shared.{
  ℕ, suc, Bool, true, false, ◌&&◌, ◌||◌, not, Option, none, some, List, [], ◌∷◌, ◌++◌, length, leb,
  if◌then◌else◌,
}

-- What the loop has collected: the rows of each mote in the order of insertion, and the two counters.
pub record Scan (M R : Type 0) : Type 0 where
  pub rows_by_mote : List (M × List R)
  pub n_malformed : ℕ
  pub selected_motes : List M

-- The loop goes on, or it breaks.
pub data Turn (M R : Type 0) : Type 0 where
  next stop : Scan M R → Turn M R

module _ {M : Type 0} (same : M → M → Bool) where
  abbrev pub member : M → List M → Bool
  member mote [] = false
  member mote (m ∷ ms) = same m mote || member mote ms

  -- `selected_motes.add(mote)`
  abbrev pub add_mote : M → List M → List M
  add_mote mote motes = if member mote motes then motes else motes ++ (mote ∷ [])

module _ {M R : Type 0} (same : M → M → Bool) where
  -- `rows_by_mote[mote]`
  abbrev pub rows_of : M → List (M × List R) → List R
  rows_of mote [] = []
  rows_of mote ((m, rows) ∷ rest) =
      let later = rows_of mote rest in if same m mote then rows else later

  -- The entry that a `defaultdict` makes when it is read.
  abbrev pub touch : M → List (M × List R) → List (M × List R)
  touch mote [] = (mote, []) ∷ []
  touch mote ((m, rows) ∷ rest) =
      let touched = touch mote rest in if same m mote then (m, rows) ∷ rest else (m, rows) ∷ touched

  -- `rows_by_mote[mote].append(row)`
  abbrev pub append_row : M → R → List (M × List R) → List (M × List R)
  append_row mote row [] = (mote, row ∷ []) ∷ []
  append_row mote row ((m, rows) ∷ rest) =
      let appended = append_row mote row rest in
      if same m mote then (m, rows ++ (row ∷ [])) ∷ rest else (m, rows) ∷ appended

  module _ (automatic : Bool) (max_motes limit_per_mote : ℕ) where
    -- `all(len(rows_by_mote[m]) >= limit_per_mote for m in selected_motes)`
    abbrev pub all_full : List (M × List R) → List M → Bool
    all_full groups [] = true
    all_full groups (m ∷ ms) = leb limit_per_mote (length (rows_of m groups)) && all_full groups ms

    -- `len(selected_motes) >= max_motes and all(...)`, where the motes are not given
    abbrev pub is_complete : Scan M R → Bool
    is_complete acc =
        automatic
        && leb max_motes (length acc.selected_motes)
        && all_full acc.rows_by_mote acc.selected_motes

    -- The body of the loop from the selection of the mote on.
    abbrev pub keep : M → R → Scan M R → Turn M R
    keep mote row acc =
        let after = record acc { rows_by_mote = append_row mote row acc.rows_by_mote } in
        if leb limit_per_mote (length (rows_of mote acc.rows_by_mote))
        then next (record acc { rows_by_mote = touch mote acc.rows_by_mote })
        else if is_complete after
        then stop after
        else next after

    abbrev pub is_wanted : M → Scan M R → Bool
    is_wanted mote acc =
        member same mote acc.selected_motes
        || (automatic && not (leb max_motes (length acc.selected_motes)))

    -- One line of the file, which is malformed (none) or has a mote and a row.
    unfoldable pub turn : Option (M × R) → Scan M R → Turn M R
    turn none acc = next (record acc { n_malformed = suc acc.n_malformed })
    turn (some (mote, row)) acc =
        if is_wanted mote acc
        then keep mote row (record acc {
          selected_motes =
              if automatic then add_mote same mote acc.selected_motes else acc.selected_motes;
        })
        else next acc

    module _ {L : Type 0} (parse : L → Option (M × R)) where
      unfoldable pub scan : List L → Scan M R → Scan M R
      scan [] acc = acc
      scan (line ∷ lines) acc = elim (turn (parse line) acc) [
        | next after ↦ scan lines after
        | stop after ↦ after
      ]

      -- `_load_txt`; `mote_ids` are the motes that are given, none where `automatic`.
      unfoldable pub load_txt : List M → List L → List (M × List R) × ℕ
      unfolding scan
      load_txt mote_ids lines =
          let result =
            scan lines (record { rows_by_mote = []; n_malformed = 0; selected_motes = mote_ids }) in
          (result.rows_by_mote, result.n_malformed)
