-- ===== src/WordLog.antt =====
-- library/effects/src/cas/WordLog.ts: the word log, its page bound and cursor, and the in-memory
-- realization. A caller's number is given by what the seam reads of it: its floor, or that it is not
-- finite.
pub mod Drain
use foldlab.Base.{
  ℕ, zero, suc, ◌+◌, min, ◌==◌, ◌||◌, Option, none, some, List, [], ◌∷◌, ◌++◌, length, slice, ltb,
  leb, if◌then◌else◌, Result, ok, err,
}
use foldlab.Base.Outcome.{◌>>=◌}
use foldlab.Node.{ContentId}
use foldlab.Backend.{BackendFailure, unavailable}

-- A receipt: `seq` is its mark, the index in the word.
pub record WordLogEntry : Type 0 where
  pub address : ContentId
  pub at : ℕ
  pub seq : ℕ
  pub size : ℕ
  pub tag : ℕ

pub record WordHistory : Type 0 where
  pub next : ℕ
  pub word : List WordLogEntry

-- What `append` is handed.
pub record WordLogAppend : Type 0 where
  pub address : ContentId
  pub at : ℕ
  pub size : ℕ
  pub tag : ℕ

-- A number off a caller: finite with this floor, finite with a floor below zero, or not finite.
pub data HostNumber : Type 0 where
  floor : ℕ → HostNumber
  below_zero : HostNumber
  not_finite : HostNumber

pub floored_mark : HostNumber → Result BackendFailure ℕ
floored_mark (floor n) = ok n
floored_mark below_zero = ok 0
floored_mark not_finite = err unavailable

abbrev pub word_log_page_limit : ℕ
word_log_page_limit = 10_000

pub bounded_limit : Option HostNumber → Result BackendFailure ℕ
bounded_limit none = ok word_log_page_limit
bounded_limit (some (floor n)) = if leb 1 n then ok (min n word_log_page_limit) else err unavailable
bounded_limit (some below_zero) = err unavailable
bounded_limit (some not_finite) = err unavailable

pub cursor_of : ℕ → ℕ → ℕ → ℕ
cursor_of mark page length = if ltb 0 page then mark + page else length

-- `append` of `makeMemoryWordLog`: the log assigns the mark.
unfoldable pub memory_append : WordLogAppend → List WordLogEntry → List WordLogEntry
memory_append entry entries =
    entries
    ++ record {
      address = entry.address;
      at = entry.at;
      seq = length entries;
      size = entry.size;
      tag = entry.tag;
    }
      ∷ []

-- The page that `since` answers at a floored mark and a decoded bound.
page_at : List WordLogEntry → ℕ → ℕ → WordHistory
unfolding cursor_of
page_at entries from bound =
    let word : List WordLogEntry = slice entries from (from + bound) in
    record { next = cursor_of from (length word) (length entries); word = word }

unfoldable pub memory_since :
    HostNumber → Option HostNumber → List WordLogEntry → Result BackendFailure WordHistory
unfolding page_at floored_mark bounded_limit
memory_since mark limit entries = do
  from ← floored_mark mark
  bound ← bounded_limit limit
  ok (page_at entries from bound)

-- bin/cli/history.ts, `drainFrom`: pull from `at`, go on at the page's `next`, stop at an empty page
-- or at one that does not advance. The source recurs without a bound; `none` is a lack of fuel here.
pub drain_step :
    (ℕ → Result BackendFailure WordHistory)
    → ℕ
    → ℕ
    → List WordLogEntry
    → Option (Result BackendFailure WordHistory)
drain_step since zero at word = none
drain_step since (suc fuel) at word = elim (since at) [
  | err e ↦ some (err e)
  | ok page ↦
      let grown : List WordLogEntry = word ++ page.word in
      let more = drain_step since fuel page.next grown in
      if length page.word == 0 || leb page.next at
      then some (ok (record { next = page.next; word = grown }))
      else more
]

pub drain_from :
    (ℕ → Result BackendFailure WordHistory) → ℕ → ℕ → Option (Result BackendFailure WordHistory)
unfolding drain_step
drain_from since fuel mark = drain_step since fuel mark []
