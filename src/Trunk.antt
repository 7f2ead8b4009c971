-- ===== src/Trunk.antt =====
-- experiments/workbench/src/trunk: the carrier of model.ts, foldPage of fold.ts, and placementOf of placement.ts.
-- The lane of a tag comes from the generated registry, so its index is a parameter. A revision of -1 is `none`.
pub mod Counts
use foldlab.Base.{
  ℕ, zero, suc, ◌+◌, ◌-◌, min, max, Bool, true, false, Option, none, some, List, [], ◌∷◌, ◌++◌,
  length, drop, get_elem?, map, ltb, leb, not, ◌==◌, ◌&&◌, if◌then◌else◌,
}
use foldlab.Node.{ContentId}
use foldlab.WordLog.{WordLogEntry, WordHistory}

abbrev pub k_carrier : ℕ
k_carrier = 512

pub record Column : Type 0 where
  pub count : ℕ
  pub tail_revision : Option ℕ
  pub tail : List WordLogEntry

-- The one reason that a fold refuses a page for.
pub data TrunkStatus : Type 0 where
  idle loading live truncated : TrunkStatus

pub record Model : Type 0 where
  pub status : TrunkStatus
  pub mark : ℕ
  pub columns : List Column

-- `totalCount`.
pub columns_count : List Column → ℕ
columns_count [] = 0
columns_count (column ∷ columns) = column.count + columns_count columns

pub total_count : Model → ℕ
unfolding columns_count
total_count model = columns_count model.columns

last_seq : List WordLogEntry → Option ℕ
last_seq [] = none
last_seq (receipt ∷ []) = some receipt.seq
last_seq (receipt ∷ next ∷ receipts) = last_seq (next ∷ receipts)

grown : Column → List WordLogEntry → Column
unfolding last_seq
grown column added =
    let merged : List WordLogEntry = column.tail ++ added in
    let tail : List WordLogEntry =
      if ltb k_carrier (length merged) then drop (length merged - k_carrier) merged else merged in
    record { count = column.count + length added; tail_revision = last_seq tail; tail = tail }

-- `receipt.seq <= column.tailRevision`.
stale : ℕ → Option ℕ → Bool
stale seq none = false
stale seq (some revision) = leb seq revision

-- What a page admits to a column, in page order.
admitted_to : (ℕ → ℕ) → ℕ → ℕ → Column → List WordLogEntry → List WordLogEntry
unfolding stale
admitted_to lane_of_tag mark col column [] = []
admitted_to lane_of_tag mark col column (receipt ∷ word) =
    let rest = admitted_to lane_of_tag mark col column word in
    if not (ltb receipt.seq mark)
      && (lane_of_tag receipt.tag == col && not (stale receipt.seq column.tail_revision))
    then receipt ∷ rest
    else rest

-- A column to which nothing is admitted stays as it is.
grown_by : Column → List WordLogEntry → Column
unfolding grown
grown_by column [] = column
grown_by column (receipt ∷ added) = grown column (receipt ∷ added)

fold_columns : (ℕ → ℕ) → ℕ → List WordLogEntry → ℕ → List Column → List Column
unfolding admitted_to grown_by
fold_columns lane_of_tag mark word col [] = []
fold_columns lane_of_tag mark word col (column ∷ columns) =
    grown_by column (admitted_to lane_of_tag mark col column word)
    ∷ fold_columns lane_of_tag mark word (suc col) columns

pub fold_page : (ℕ → ℕ) → Model → WordHistory → Model
unfolding fold_columns
fold_page lane_of_tag model page =
    if ltb page.next model.mark
    then record { status = truncated; mark = page.next; columns = model.columns }
    else record {
      status = live;
      mark = page.next;
      columns = fold_columns lane_of_tag model.mark page.word 0 model.columns;
    }

-- A mark: a receipt, or a run of receipts as a count.
pub data Op : Type 0 where
  square : ℕ → ℕ → ContentId → Op
  strip : ℕ → ℕ → ℕ → Op

pub covered : Op → ℕ
covered (square col row address) = 1
covered (strip col from_row count) = count

-- `opTotal`, of the marks.
pub op_total : List Op → ℕ
unfolding covered
op_total [] = 0
op_total (op ∷ ops) = covered op + op_total ops

-- The span that a cut grants each column, and the first individuated row of each column.
pub record Doi : Type 0 where
  pub span : ℕ
  pub floor : List ℕ

-- `cutDoi`: a span of each column stays individuated.
pub cut_doi : Model → ℕ → Doi
cut_doi model visible = record {
  span = visible;
  floor = map (λ (column : Column). column.count - visible) model.columns;
}

floor_or_zero : Option ℕ → ℕ
floor_or_zero none = 0
floor_or_zero (some row) = row

-- A row without a receipt has no mark.
mark_row : ℕ → ℕ → Option WordLogEntry → List Op → List Op
mark_row col row none marks = marks
mark_row col row (some receipt) marks = square col row receipt.address ∷ marks

-- The loop over the individuated rows, by the rows left.
squares : ℕ → ℕ → List WordLogEntry → ℕ → ℕ → List Op
unfolding mark_row
squares col carrier_base tail row zero = []
squares col carrier_base tail row (suc rows) =
    mark_row col row (get_elem? tail (row - carrier_base))
      (squares col carrier_base tail (row + 1) rows)

column_floor : Column → ℕ → ℕ
column_floor column asked = max (min asked column.count) (column.count - length column.tail)

column_ops : ℕ → Column → ℕ → List Op
unfolding column_floor squares
column_ops col column asked =
    let floor : ℕ = column_floor column asked in
    let marks =
      squares col (column.count - length column.tail) column.tail floor (column.count - floor) in
    if column.count == 0 then [] else if ltb 0 floor then strip col 0 floor ∷ marks else marks

place_columns : Doi → ℕ → List Column → List Op
unfolding column_ops floor_or_zero
place_columns doi col [] = []
place_columns doi col (column ∷ columns) =
    column_ops col column (floor_or_zero (get_elem? doi.floor col))
    ++ place_columns doi (suc col) columns

-- `placementOf`: columns ascending, the strip of a column before its squares.
pub placement_of : Model → Doi → List Op
unfolding place_columns
placement_of model doi = place_columns doi 0 model.columns
