-- ===== src/Messenger/Rows.antt =====
-- net/messenger.go: the rows of the outgoing messages as a map from IDs.
use openbazaar.Prelude.{
  ℕ, Option, none, some, List, [], ◌∷◌, ◌≡◌, refl, str_eq, eq_iff, if◌then◌else◌, arith,
}
use openbazaar.Proto.Common.{Text}
use openbazaar.Messenger.Defs.{OutgoingMessage, save_row, delete_row, touch_row}

-- The row with the ID.
unfoldable pub find_row : Text → List OutgoingMessage → Option OutgoingMessage
find_row j [] = none
find_row j (x ∷ xs) = if str_eq x.id j then some x else find_row j xs

-- The row with the time of its last attempt changed.
abbrev pub touched : ℕ → Option OutgoingMessage → Option OutgoingMessage
touched now none = none
touched now (some x) = some (record x { last_attempt = now })

pub find-save :
    (j : Text) (m : OutgoingMessage) (rows : List OutgoingMessage)
    → find_row j (save_row m rows) ≡ (if str_eq m.id j then some m else find_row j rows)
unfolding find_row save_row
find-save j m [] = refl
find-save j m (x ∷ xs) =
    ground (arith, eq_iff x.id m.id, eq_iff x.id j, eq_iff m.id j, find-save j m xs)

pub find-delete :
    (j id : Text) (rows : List OutgoingMessage)
    → find_row j (delete_row id rows) ≡ (if str_eq id j then none else find_row j rows)
unfolding find_row delete_row
find-delete j id [] = ground arith
find-delete j id (x ∷ xs) =
    ground (arith, eq_iff x.id id, eq_iff x.id j, eq_iff id j, find-delete j id xs)

pub find-touch :
    (j id : Text) (now : ℕ) (rows : List OutgoingMessage)
    → find_row j (touch_row now id rows)
      ≡ (if str_eq id j then touched now (find_row j rows) else find_row j rows)
unfolding find_row touch_row
find-touch j id now [] = ground arith
find-touch j id now (x ∷ xs) =
    ground (arith, eq_iff x.id id, eq_iff x.id j, eq_iff id j, find-touch j id now xs)

-- The rows are a map from IDs to messages: Save, Delete and Update write at their ID, and at no other.
pub find_row_laws :
    (j id : Text) (m : OutgoingMessage) (now : ℕ) (rows : List OutgoingMessage)
    → (find_row j (save_row m rows) ≡ (if str_eq m.id j then some m else find_row j rows))
      × (find_row j (delete_row id rows) ≡ (if str_eq id j then none else find_row j rows))
      × (find_row j (touch_row now id rows)
          ≡ (if str_eq id j then touched now (find_row j rows) else find_row j rows))
find_row_laws j id m now rows =
    (find-save j m rows, find-delete j id rows, find-touch j id now rows)
