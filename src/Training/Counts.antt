-- ===== src/Training/Counts.antt =====
-- ml/train_isolation_forest.py: the numbers of the supervised evaluation, counted one by one.
use mathlib.Core.Path.{subst}
use trust_aware_self_healing.Store.Db.{Label, inlier, outlier}
use trust_aware_self_healing.Shared.{
  ℕ, zero, suc, ◌≤◌, ◌+◌, ◌==◌, ◌≡◌, refl, sym, ap, ◌∙◌, Bool, true, false, ◌&&◌, not, is_some,
  Option, none, some, List, [], ◌∷◌, String, length, arith, if◌then◌else◌, Bool-cases, inl, inr,
}
use trust_aware_self_healing.Floats.{Floats, of_ℕ}
use trust_aware_self_healing.Training.IsolationForest.{
  Metrics, metrics_of, metrics_if_any, tally, is_outlier, labelled, label_of, evaluate_supervised,
  Labels,
}

-- The label of an id: that of its last row in the file.
abbrev pub last_label : Option (Option String) → Labels → ℕ → Option (Option String)
last_label before [] i = before
last_label before ((j, label) ∷ rest) i = last_label (if j == i then some label else before) rest i

-- What one labelled prediction adds: a fault was injected or not, and the model calls it an outlier or
-- not.
abbrev pub true_positive : Option String → Label → ℕ
true_positive (some fault) outlier = 1
true_positive _ _ = 0

abbrev pub false_positive : Option String → Label → ℕ
false_positive none outlier = 1
false_positive _ _ = 0

abbrev pub false_negative : Option String → Label → ℕ
false_negative (some fault) inlier = 1
false_negative _ _ = 0

abbrev pub true_negative : Option String → Label → ℕ
true_negative none inlier = 1
true_negative _ _ = 0

abbrev pub any_outcome : Option String → Label → ℕ
any_outcome label pred = 1

abbrev at_label : (Option String → Label → ℕ) → Option (Option String) → Label → ℕ
at_label f none pred = 0
at_label f (some label) pred = f label pred

-- The sum over the ids and their predictions, of those that are labelled.
abbrev pub summed : (Option String → Label → ℕ) → Labels → List ℕ → List Label → ℕ
summed f labels [] preds = 0
summed f labels (i ∷ ids) [] = 0
summed f labels (i ∷ ids) (pred ∷ preds) =
    at_label f (last_label none labels i) pred + summed f labels ids preds

abbrev or_before : Option (Option String) → Option (Option String) → Option (Option String)
or_before (some label) before = some label
or_before none before = before

label_of-last :
    (labels : Labels) (before : Option (Option String)) (i : ℕ)
    → last_label before labels i ≡ or_before (label_of labels i) before
label_of-last [] before i = refl
label_of-last ((j, label) ∷ rest) before i =
    label_of-last rest _ i ∙ by_rest (label_of rest i) (j == i)
  where
    by_rest :
        (older : Option (Option String)) (b : Bool)
        → or_before older (if b then some label else before)
          ≡ or_before
              (elim older as (λ x. Option (Option String)) [
                | some l ↦ some l
                | none ↦ if b then some label else none
              ])
              before
    by_rest (some l) b = refl
    by_rest none true = refl
    by_rest none false = refl

label_of_lem : (labels : Labels) (i : ℕ) → label_of labels i ≡ last_label none labels i
label_of_lem labels i = sym (label_of-last labels none i ∙ or_none (label_of labels i))
  where
    or_none : (o : Option (Option String)) → or_before o none ≡ o
    or_none none = refl
    or_none (some l) = refl

module _ (fl : Floats) where
  open fl use {F, div}

  abbrev is_counted : Bool → Bool → Option String → Label → Bool
  is_counted truth prediction label pred =
      (if truth then is_some label else not (is_some label))
      && (if prediction then is_outlier fl pred else not (is_outlier fl pred))

  module _ (truth prediction : Bool) (f : Option String → Label → ℕ)
      (same : (label : Option String) (pred : Label)
        → f label pred ≡ (if is_counted truth prediction label pred then 1 else 0)) where
    tally-step :
        (o : Option (Option String)) (pred : Label) (rest : List (Bool × Bool)) (n : ℕ)
        → tally fl truth prediction rest ≡ n
        → tally fl truth prediction (elim o as (λ x. List (Bool × Bool)) [
          | none ↦ rest
          | some label ↦ (is_some label, is_outlier fl pred) ∷ rest
        ])
          ≡ at_label f o pred + n
    unfolding tally
    tally-step none pred rest n h = omega arith
    tally-step (some label) pred rest n h =
        elim (Bool-cases (is_counted truth prediction label pred)) [
          | inl e ↦ rw (same label pred, e) (omega arith)
          | inr e ↦ rw (same label pred, e) (omega arith)
        ]

    tally-labelled :
        (labels : Labels) (ids : List ℕ) (preds : List Label)
        → tally fl truth prediction (labelled fl labels ids preds) ≡ summed f labels ids preds
    unfolding labelled tally
    tally-labelled labels [] preds = refl
    tally-labelled labels (i ∷ ids) [] = refl
    tally-labelled labels (i ∷ ids) (pred ∷ preds) =
        rw (← label_of_lem labels i)
          (tally-step (label_of labels i) pred _ _ (tally-labelled labels ids preds))

  length-labelled :
      (labels : Labels) (ids : List ℕ) (preds : List Label)
      → length (labelled fl labels ids preds) ≡ summed any_outcome labels ids preds
  unfolding labelled
  length-labelled labels [] preds = refl
  length-labelled labels (i ∷ ids) [] = refl
  length-labelled labels (i ∷ ids) (pred ∷ preds) =
      rw (← label_of_lem labels i)
        (by_label (label_of labels i) _ _ (length-labelled labels ids preds))
    where
      by_label :
          (o : Option (Option String)) (rest : List (Bool × Bool)) (n : ℕ)
          → length rest ≡ n
          → length (elim o as (λ x. List (Bool × Bool)) [
            | none ↦ rest
            | some label ↦ (is_some label, is_outlier fl pred) ∷ rest
          ])
            ≡ at_label any_outcome o pred + n
      by_label none rest n h = omega arith
      by_label (some label) rest n h = omega arith

  true_positive_lem :
      (label : Option String) (pred : Label)
      → true_positive label pred ≡ (if is_counted true true label pred then 1 else 0)
  true_positive_lem none inlier = refl
  true_positive_lem none outlier = refl
  true_positive_lem (some fault) inlier = refl
  true_positive_lem (some fault) outlier = refl

  false_positive_lem :
      (label : Option String) (pred : Label)
      → false_positive label pred ≡ (if is_counted false true label pred then 1 else 0)
  false_positive_lem none inlier = refl
  false_positive_lem none outlier = refl
  false_positive_lem (some fault) inlier = refl
  false_positive_lem (some fault) outlier = refl

  false_negative_lem :
      (label : Option String) (pred : Label)
      → false_negative label pred ≡ (if is_counted true false label pred then 1 else 0)
  false_negative_lem none inlier = refl
  false_negative_lem none outlier = refl
  false_negative_lem (some fault) inlier = refl
  false_negative_lem (some fault) outlier = refl

  true_negative_lem :
      (label : Option String) (pred : Label)
      → true_negative label pred ≡ (if is_counted false false label pred then 1 else 0)
  true_negative_lem none inlier = refl
  true_negative_lem none outlier = refl
  true_negative_lem (some fault) inlier = refl
  true_negative_lem (some fault) outlier = refl

  -- n / d, and 0 where d is 0.
  abbrev pub share : ℕ → ℕ → F
  share n zero = of_ℕ fl 0
  share n (suc d) = div (of_ℕ fl n) (of_ℕ fl (suc d))

  share_lem : (n d : ℕ) → (if d == 0 then of_ℕ fl 0 else div (of_ℕ fl n) (of_ℕ fl d)) ≡ share n d
  share_lem n zero = refl
  share_lem n (suc d) = let e : (suc d == 0) ≡ false = ground arith in rw e refl

  -- The numbers of the evaluation, from the labels and the predictions.
  pub record IsCounted (preds : List Label) (ids : List ℕ) (labels : Labels) (m : Metrics fl)
      : Type 0 where
    pub all : m.n_labeled_eval ≡ summed any_outcome labels ids preds
    pub tp : m.tp ≡ summed true_positive labels ids preds
    pub fp : m.fp ≡ summed false_positive labels ids preds
    pub fn : m.fn ≡ summed false_negative labels ids preds
    pub tn : m.tn ≡ summed true_negative labels ids preds
    pub precision : m.precision ≡ fl.round (share m.tp (m.tp + m.fp)) 4
    pub recall : m.recall ≡ fl.round (share m.tp (m.tp + m.fn)) 4

  metrics_of-IsCounted :
      (preds : List Label) (ids : List ℕ) (labels : Labels)
      → IsCounted preds ids labels (metrics_of fl (labelled fl labels ids preds))
  unfolding metrics_of
  metrics_of-IsCounted preds ids labels = record {
    all = length-labelled labels ids preds;
    tp = tally-labelled true true _ true_positive_lem labels ids preds;
    fp = tally-labelled false true _ false_positive_lem labels ids preds;
    fn = tally-labelled true false _ false_negative_lem labels ids preds;
    tn = tally-labelled false false _ true_negative_lem labels ids preds;
    precision = ap (λ x. fl.round x 4) (share_lem _ _);
    recall = ap (λ x. fl.round x 4) (share_lem _ _);
  }

  -- Nothing where no id is labelled, and else the numbers.
  abbrev pub IsAnswer : List Label → List ℕ → Labels → Option (Metrics fl) → Type 0
  IsAnswer preds ids labels none = summed any_outcome labels ids preds ≡ 0
  IsAnswer preds ids labels (some m) = (1 ≤ m.n_labeled_eval) × IsCounted preds ids labels m

  no_labels : (ids : List ℕ) (preds : List Label) → summed any_outcome [] ids preds ≡ 0
  no_labels [] preds = refl
  no_labels (i ∷ ids) [] = refl
  no_labels (i ∷ ids) (pred ∷ preds) = let rest = no_labels ids preds in omega arith

  -- The evaluation gives nothing exactly if no id has a label, and else these numbers: of the ids, with
  -- the last label of each that has one, the true positives are those with a fault that are called
  -- outliers, the false positives those without that are, the false negatives those with a fault that
  -- are called inliers, and the true negatives the others; the precision is the share of the true
  -- among all positives and the recall that of the found among all faults, each 0 where there is none,
  -- and rounded to four decimals.
  pub evaluate_supervised-counts :
      (preds : List Label) (ids : List ℕ) (labels : Labels)
      → IsAnswer preds ids labels (evaluate_supervised fl preds ids labels)
  unfolding evaluate_supervised metrics_of
  evaluate_supervised-counts preds ids [] = no_labels ids preds
  evaluate_supervised-counts preds ids (label ∷ labels) =
      of_pairs (labelled fl (label ∷ labels) ids preds) refl
    where
      of_pairs :
          (pairs : List (Bool × Bool))
          → labelled fl (label ∷ labels) ids preds ≡ pairs
          → IsAnswer preds ids (label ∷ labels) (metrics_if_any fl pairs)
      of_pairs [] e = sym (length-labelled (label ∷ labels) ids preds) ∙ ap length e
      of_pairs (pair ∷ pairs) e = (
        omega arith,
        subst (λ ps. IsCounted preds ids (label ∷ labels) (metrics_of fl ps)) e
            (metrics_of-IsCounted preds ids (label ∷ labels)),
      )
