-- ===== src/Tests/WordRuns.antt =====
-- The word log on two receipts.
use foldlab.Base.{
  ℕ, ◌≡◌, refl, suc, none, some, List, [], ◌∷◌, ok, length, drop, min, ◌-◌, ◌+◌, ◌++◌, ◌⊎◌, ◌≤◌,
  ◌<◌,
}
use foldlab.WordLog.{
  WordLogEntry, WordHistory, floor, memory_since, drain_from, word_log_page_limit,
}
use foldlab.WordLog.Drain.{drain_from-memory, since-page}

abbrev receipt : ℕ → WordLogEntry
receipt seq = record { address = 1 ∷ 2 ∷ []; at = 5; seq = seq; size = 3; tag = 8 }

abbrev two_receipts : List WordLogEntry
two_receipts = receipt 0 ∷ receipt 1 ∷ []

drain_from-memory_example :
    drain_from (λ at. memory_since (floor at) none two_receipts) (suc (length two_receipts)) 1
    ≡ some (ok (record { next = length two_receipts; word = drop 1 two_receipts }))
drain_from-memory_example = drain_from-memory two_receipts 1

abbrev first_page : WordHistory
first_page = record { next = 1; word = receipt 0 ∷ [] }

first_page_served : memory_since (floor 0) (some (floor 1)) two_receipts ≡ ok first_page
unfolding memory_since
first_page_served = refl

since-page_example :
    (1 ≤ 1)
    × (length first_page.word ≡ min (min 1 word_log_page_limit) (length two_receipts - 0))
    × (first_page.word ++ drop (0 + length first_page.word) two_receipts ≡ drop 0 two_receipts)
    × (((first_page.word ≡ [])
          × (length two_receipts ≤ 0)
          × (first_page.next ≡ length two_receipts))
        ⊎ ((0 < length first_page.word) × (first_page.next ≡ 0 + length first_page.word)))
since-page_example = since-page two_receipts 0 1 first_page first_page_served

-- A mark far behind the word is taken back to its end.
abbrev overshot_page : WordHistory
overshot_page = record { next = 2; word = [] }

overshot_page_served : memory_since (floor 99) (some (floor 3)) two_receipts ≡ ok overshot_page
unfolding memory_since
overshot_page_served = refl
