-- ===== src/WordLog/Drain.antt =====
-- Reading the word by pages: what a page holds, and that chained pulls give the whole suffix.
use foldlab.Base.{
  ℕ, zero, suc, ◌+◌, ◌-◌, ◌≤◌, ◌<◌, ◌≡◌, refl, sym, ap, ◌∙◌, min, none, some, List, [], ◌∷◌, ◌++◌,
  append_assoc, length, take, drop, length-take, length-drop, take-append-drop, drop-drop, drop_end,
  Result, ok, arith, Bool-cases, inl, inr, ◌==◌, ==_iff, ◌⊎◌,
}
use mathlib.Core.Path.{subst}
use foldlab.Backend.{BackendFailure}
use foldlab.WordLog.{
  WordLogEntry, WordHistory, floor, page_at, cursor_of, memory_since, drain_step, drain_from,
  word_log_page_limit,
}

module _ {ℓ} {A : Type ℓ} where
  drop-length-take : (n : ℕ) (xs : List A) → drop (length (take n xs)) xs ≡ drop n xs
  drop-length-take zero xs = refl
  drop-length-take (suc n) [] = refl
  drop-length-take (suc n) (x ∷ xs) = drop-length-take n xs

nil_of_length : (xs : List WordLogEntry) → length xs ≡ 0 → xs ≡ []
nil_of_length [] h = refl
nil_of_length (x ∷ xs) h = absurd (omega arith)

-- The page from `at` under a bound, and the suffix behind it.
module _ (entries : List WordLogEntry) (at bound : ℕ) where
  length-page : length (page_at entries at bound).word ≡ min bound (length entries - at)
  unfolding page_at
  length-page =
      omega (arith, length-take (at + bound - at) (drop at entries), length-drop at entries)

  page-append-drop :
      (page_at entries at bound).word ++ drop (at + length (page_at entries at bound).word) entries
      ≡ drop at entries
  unfolding page_at
  page-append-drop =
      ap (λ t. take (at + bound - at) (drop at entries) ++ t)
        (sym (drop-drop at _ _ entries refl) ∙ drop-length-take (at + bound - at) (drop at entries))
      ∙ take-append-drop (at + bound - at) (drop at entries)

  next-page :
      (page_at entries at bound).next
      ≡ cursor_of at (length (page_at entries at bound).word) (length entries)
  unfolding page_at
  next-page = refl

module _ (entries : List WordLogEntry) (bound : ℕ) (pos : 1 ≤ bound) where
  abbrev pages : ℕ → Result BackendFailure WordHistory
  pages at = ok (page_at entries at bound)

  drain_step-pages :
      (fuel at : ℕ) (word : List WordLogEntry)
      → length entries - at < fuel
      → drain_step pages fuel at word
        ≡ some (ok (record { next = length entries; word = word ++ drop at entries }))
  unfolding drain_step cursor_of
  drain_step-pages zero at word h = absurd (omega arith)
  drain_step-pages (suc fuel) at word h = elim (Bool-cases (length page.word == 0)) [
    | inl e ↦ ground (
      arith,
      next-page entries at bound,
      length-page entries at bound,
      ap (λ t. word ++ t)
          (empty_page (omega (arith, (==_iff _ _).0 e, length-page entries at bound))),
    )
    | inr e ↦ ground (
      arith,
      next-page entries at bound,
      length-page entries at bound,
      drain_step-pages fuel page.next (word ++ page.word),
      rest (ground (arith, next-page entries at bound)),
    )
  ]
    where
      page : WordHistory
      page = page_at entries at bound

      empty_page : length entries ≤ at → page.word ≡ drop at entries
      empty_page k =
          nil_of_length page.word (omega (arith, length-page entries at bound))
          ∙ sym (drop_end at entries k)

      rest :
          page.next ≡ at + length page.word
          → (word ++ page.word) ++ drop page.next entries ≡ word ++ drop at entries
      rest k =
          append_assoc word page.word (drop page.next entries)
          ∙ ap (λ t. word ++ t)
              (ap (λ t. page.word ++ drop t entries) k ∙ page-append-drop entries at bound)

-- Over the in-memory log, chained pulls from a mark end within one more round than there are
-- receipts, and give the suffix from the mark, whole and in order, and the length of the word as the
-- mark to resume at.
pub drain_from-memory :
    (entries : List WordLogEntry) (mark : ℕ)
    → drain_from (λ at. memory_since (floor at) none entries) (suc (length entries)) mark
      ≡ some (ok (record { next = length entries; word = drop mark entries }))
unfolding drain_from memory_since
drain_from-memory entries mark =
    drain_step-pages entries word_log_page_limit (omega arith) (suc (length entries)) mark []
      (omega arith)

-- Where a page under a positive bound ends, and the mark to resume at behind it.
page-next :
    (entries : List WordLogEntry) (at bound : ℕ)
    → 1 ≤ bound
    → (((page_at entries at bound).word ≡ [])
        × (length entries ≤ at)
        × ((page_at entries at bound).next ≡ length entries))
      ⊎ ((0 < length (page_at entries at bound).word)
          × ((page_at entries at bound).next ≡ at + length (page_at entries at bound).word))
unfolding cursor_of
page-next entries at bound pos = elim (Bool-cases (length (page_at entries at bound).word == 0)) [
  | inl e ↦ inl (
    nil_of_length _ ((==_iff _ _).0 e),
    omega (arith, (==_iff _ _).0 e, length-page entries at bound),
    ground (arith, next-page entries at bound),
  )
  | inr e ↦ inr (ground arith, ground (arith, next-page entries at bound))
]

served :
    (entries : List WordLogEntry) (mark limit : ℕ) (page : WordHistory)
    → memory_since (floor mark) (some (floor limit)) entries ≡ ok page
    → (1 ≤ limit) × (page_at entries mark (min limit word_log_page_limit) ≡ page)
unfolding memory_since
served entries mark limit page h = (ground arith, ground arith)

-- A page that the in-memory log answers at a mark and a limit: the limit is positive, and the page holds as
-- many receipts from the mark as the limit, the page limit and the word allow. A page with receipts resumes
-- right behind them. A page without receipts is answered only at a mark at or past the end of the word, and
-- resumes at the end of the word, which an overshot mark is taken back to.
pub since-page :
    (entries : List WordLogEntry) (mark limit : ℕ) (page : WordHistory)
    → memory_since (floor mark) (some (floor limit)) entries ≡ ok page
    → (1 ≤ limit)
      × (length page.word ≡ min (min limit word_log_page_limit) (length entries - mark))
      × (page.word ++ drop (mark + length page.word) entries ≡ drop mark entries)
      × (((page.word ≡ []) × (length entries ≤ mark) × (page.next ≡ length entries))
          ⊎ ((0 < length page.word) × (page.next ≡ mark + length page.word)))
since-page entries mark limit page h =
    let bound : ℕ = min limit word_log_page_limit in
    let (pos, answered) = served entries mark limit page h in
    subst
      (λ (p : WordHistory).
        (1 ≤ limit)
        × (length p.word ≡ min bound (length entries - mark))
        × (p.word ++ drop (mark + length p.word) entries ≡ drop mark entries)
        × (((p.word ≡ []) × (length entries ≤ mark) × (p.next ≡ length entries))
            ⊎ ((0 < length p.word) × (p.next ≡ mark + length p.word))))
      answered
      (
        pos,
        length-page entries mark bound,
        page-append-drop entries mark bound,
        page-next entries mark bound (omega arith),
      )
