-- ===== src/Processor/Sorting.antt =====
-- orders/processor.go: the order in which parked messages are processed.
use openbazaar.Prelude.{List}
use openbazaar.Prelude.Sort.{IsSortedBy, sort_by_lem}
use mathlib.Core.List.{Perm}
use openbazaar.Proto.Net.{OrderMessage}
use openbazaar.Processor.Process.{number_of, sort_by_type}

-- The parked messages are processed in the order of their types' numbers, each of them once: in what
-- the sort returns each message has a type whose number is at most that of all that follow it, and it
-- is a permutation of what the sort was given.
pub sort_by_type-IsSortedBy :
    (ms : List OrderMessage) → IsSortedBy number_of (sort_by_type ms) × Perm (sort_by_type ms) ms
unfolding sort_by_type
sort_by_type-IsSortedBy ms = sort_by_lem number_of ms
