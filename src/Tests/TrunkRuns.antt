-- ===== src/Tests/TrunkRuns.antt =====
-- Folding a page into a trunk of two columns.
use foldlab.Base.{ℕ, ◌≡◌, none, [], ◌∷◌, arith, if◌then◌else◌, ◌==◌}
use foldlab.WordLog.{WordLogEntry, WordHistory}
use foldlab.Trunk.{Model, Column, idle, total_count, fold_page, Doi, op_total, placement_of}
use foldlab.Trunk.Counts.{IsTrunk, fold_page-IsTrunk}
use foldlab.Tests.Fixtures.{chunk_id}

abbrev no_column : Column
no_column = record { count = 0; tail_revision = none; tail = [] }

abbrev two_columns : Model
two_columns = record { status = idle; mark = 0; columns = no_column ∷ no_column ∷ [] }

abbrev receipt_of : ℕ → ℕ → WordLogEntry
receipt_of seq tag = record { address = chunk_id; at = 0; seq = seq; size = 1; tag = tag }

abbrev one_page : WordHistory
one_page = record { next = 3; word = receipt_of 0 8 ∷ receipt_of 1 9 ∷ receipt_of 2 8 ∷ [] }

abbrev lane : ℕ → ℕ
lane tag = if tag == 8 then 1 else 0

two_columns-IsTrunk : IsTrunk two_columns
two_columns-IsTrunk = (
  record { counted = omega arith; carried = omega arith },
  (record { counted = omega arith; carried = omega arith }, tt),
)

fold_page-IsTrunk_example :
    IsTrunk (fold_page lane two_columns one_page)
    × ((doi : Doi)
        → op_total (placement_of (fold_page lane two_columns one_page) doi)
          ≡ total_count (fold_page lane two_columns one_page))
fold_page-IsTrunk_example = fold_page-IsTrunk lane two_columns one_page two_columns-IsTrunk
