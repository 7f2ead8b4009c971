-- ===== src/Trunk/Counts.antt =====
-- The placement of a trunk counts every receipt once.
use foldlab.Base.{
  ℕ, zero, suc, ◌+◌, ◌-◌, min, max, ◌≡◌, ◌≤◌, ◌<◌, refl, ap, ◌∙◌, some, List, [], ◌∷◌, ◌++◌, length,
  drop, get_elem?, All, ltb, ◌==◌, arith, Bool-cases, inl, inr, length-append, length-drop,
}
use foldlab.WordLog.{WordLogEntry, WordHistory}
use foldlab.Trunk.{
  Column, Model, total_count, columns_count, grown, grown_by, admitted_to, fold_columns, fold_page,
  Op, covered, op_total, Doi, squares, mark_row, column_floor, column_ops, floor_or_zero,
  place_columns, placement_of,
}

-- A column has counted what its tail holds, and its tail is within the carrier.
pub record IsColumn (column : Column) : Type 0 where
  pub counted : length column.tail ≤ column.count
  pub carried : length column.tail ≤ 512

abbrev pub IsTrunk : Model → Type 0
IsTrunk model = All IsColumn model.columns

grown-IsColumn :
    (column : Column) (added : List WordLogEntry) → IsColumn column → IsColumn (grown column added)
unfolding grown
grown-IsColumn column added h = record {
  counted = ground (arith, size, cut, h.counted);
  carried = ground (arith, size, cut);
}
  where
    size : length (column.tail ++ added) ≡ length column.tail + length added
    size = length-append column.tail added

    cut :
        length (drop (length (column.tail ++ added) - 512) (column.tail ++ added))
        ≡ length (column.tail ++ added) - (length (column.tail ++ added) - 512)
    cut = length-drop (length (column.tail ++ added) - 512) (column.tail ++ added)

grown_by-IsColumn :
    (column : Column) (added : List WordLogEntry)
    → IsColumn column
    → IsColumn (grown_by column added)
unfolding grown_by
grown_by-IsColumn column [] h = h
grown_by-IsColumn column (receipt ∷ added) h = grown-IsColumn column (receipt ∷ added) h

fold_columns-IsColumn :
    (lane_of_tag : ℕ → ℕ) (mark : ℕ) (word : List WordLogEntry) (col : ℕ) (columns : List Column)
    → All IsColumn columns
    → All IsColumn (fold_columns lane_of_tag mark word col columns)
unfolding fold_columns
fold_columns-IsColumn lane_of_tag mark word col [] h = tt
fold_columns-IsColumn lane_of_tag mark word col (column ∷ columns) h = (
  grown_by-IsColumn column (admitted_to lane_of_tag mark col column word) h.0,
  fold_columns-IsColumn lane_of_tag mark word (suc col) columns h.1,
)

folds :
    (lane_of_tag : ℕ → ℕ) (model : Model) (page : WordHistory)
    → IsTrunk model
    → IsTrunk (fold_page lane_of_tag model page)
unfolding fold_page
folds lane_of_tag model page h = elim (Bool-cases (ltb page.next model.mark)) [
  | inl e ↦ rw e h
  | inr e ↦ rw e (fold_columns-IsColumn lane_of_tag model.mark page.word 0 model.columns h)
]

op_total-append : (xs ys : List Op) → op_total (xs ++ ys) ≡ op_total xs + op_total ys
unfolding op_total
op_total-append [] ys = omega arith
op_total-append (x ∷ xs) ys = omega (arith, op_total-append xs ys)

get_elem?-in :
    {A : Type 0} (xs : List A) (i : ℕ) → i < length xs → (x : A) × (get_elem? xs i ≡ some x)
get_elem?-in [] i h = absurd (omega arith)
get_elem?-in (x ∷ xs) zero h = (x, refl)
get_elem?-in (x ∷ xs) (suc i) h = get_elem?-in xs i (omega arith)

squares-total :
    (col base : ℕ) (tail : List WordLogEntry) (row rows : ℕ)
    → base ≤ row
    → row + rows ≤ base + length tail
    → op_total (squares col base tail row rows) ≡ rows
unfolding squares mark_row op_total covered
squares-total col base tail row zero low high = refl
squares-total col base tail row (suc rows) low high =
    let (receipt, e) = get_elem?-in tail (row - base) (omega arith) in
    ap (λ found. op_total (mark_row col row found (squares col base tail (row + 1) rows))) e
    ∙ omega (arith, squares-total col base tail (row + 1) rows (omega arith) (omega arith))

column_ops-total :
    (col : ℕ) (column : Column) (asked : ℕ)
    → IsColumn column
    → op_total (column_ops col column asked) ≡ column.count
unfolding column_ops op_total covered column_floor
column_ops-total col column asked h =
    let k =
      squares-total col (column.count - length column.tail) column.tail
        (max (min asked column.count) (column.count - length column.tail))
        (column.count - max (min asked column.count) (column.count - length column.tail))
        (omega arith) (omega (arith, h.counted)) in
    elim (Bool-cases (column.count == 0)) [
      | inl e ↦ rw e (ground arith)
      | inr e ↦
          elim (Bool-cases
            (ltb 0 (max (min asked column.count) (column.count - length column.tail)))) [
              | inl f ↦ rw (e, f) (omega (arith, k))
              | inr f ↦
                  let z : max (min asked column.count) (column.count - length column.tail) ≡ 0 =
                    ground arith in
                  rw (e, f) (omega (arith, k, z))
            ]
    ]

place_columns-total :
    (doi : Doi) (col : ℕ) (columns : List Column)
    → All IsColumn columns
    → op_total (place_columns doi col columns) ≡ columns_count columns
unfolding place_columns columns_count op_total
place_columns-total doi col [] h = refl
place_columns-total doi col (column ∷ columns) h =
    op_total-append (column_ops col column (floor_or_zero (get_elem? doi.floor col)))
      (place_columns doi (suc col) columns)
    ∙ omega (
      arith,
      column_ops-total col column (floor_or_zero (get_elem? doi.floor col)) h.0,
      place_columns-total doi (suc col) columns h.1,
    )

-- Where every column of a trunk has counted what its tail holds, and holds no more than the carrier, a fold of any
-- page keeps it so, and the placement of the folded trunk under any partition covers as many receipts as
-- its columns count.
pub fold_page-IsTrunk :
    (lane_of_tag : ℕ → ℕ) (model : Model) (page : WordHistory)
    → IsTrunk model
    → IsTrunk (fold_page lane_of_tag model page)
      × ((doi : Doi)
          → op_total (placement_of (fold_page lane_of_tag model page) doi)
            ≡ total_count (fold_page lane_of_tag model page))
unfolding placement_of total_count
fold_page-IsTrunk lane_of_tag model page h =
    (folded, λ doi. place_columns-total doi 0 (fold_page lane_of_tag model page).columns folded)
  where
    folded : IsTrunk (fold_page lane_of_tag model page)
    folded = folds lane_of_tag model page h
