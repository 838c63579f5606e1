-- ===== src/Network/Bans.antt =====
-- net/ban_manager.go. The map from texts to `true` is the list of its keys, each of them once.
use openbazaar.Prelude.{
  Bool, true, false, Option, none, some, List, [], ◌∷◌, ◌≡◌, refl, ◌||◌, ◌&&◌, not, str_eq, eq_iff,
  if◌then◌else◌, arith, Bool-cases, inl, inr,
}
use openbazaar.Proto.Common.{Text}

pub record BanManager : Type 0 where
  pub blocked_ids : List Text

unfoldable pub is_key : Text → List Text → Bool
is_key k [] = false
is_key k (x ∷ xs) = str_eq x k || is_key k xs

unfoldable pub put_key : Text → List Text → List Text
unfolding is_key
put_key k xs = if is_key k xs then xs else k ∷ xs

-- delete of a key; there is at most one entry.
unfoldable pub delete_key : Text → List Text → List Text
delete_key k [] = []
delete_key k (x ∷ xs) = let rest = delete_key k xs in if str_eq x k then rest else x ∷ rest

module _ (pretty : Text → Text) where
  unfoldable pub put_all : List Text → List Text → List Text
  unfolding put_key
  put_all [] keys = keys
  put_all (pid ∷ pids) keys = put_all pids (put_key (pretty pid) keys)

  unfoldable pub new_ban_manager : List Text → BanManager
  unfolding put_all
  new_ban_manager pids = record { blocked_ids = put_all pids [] }

  unfoldable pub add_blocked_id : Text → BanManager → BanManager
  unfolding put_key
  add_blocked_id pid bm = record { blocked_ids = put_key (pretty pid) bm.blocked_ids }

  unfoldable pub remove_blocked_id : Text → BanManager → BanManager
  unfolding is_key delete_key
  remove_blocked_id pid bm =
      if is_key (pretty pid) bm.blocked_ids
      then record { blocked_ids = delete_key (pretty pid) bm.blocked_ids }
      else bm

  unfoldable pub set_blocked_ids : List Text → BanManager → BanManager
  unfolding put_all
  set_blocked_ids pids bm = record { blocked_ids = put_all pids [] }

  unfoldable pub is_banned : BanManager → Text → Bool
  unfolding is_key
  is_banned bm pid = is_key (pretty pid) bm.blocked_ids

-- GetBlockedIds; the keys that cannot be decoded are skipped.
unfoldable pub get_blocked_ids : (Text → Option Text) → List Text → List Text
get_blocked_ids decode [] = []
get_blocked_ids decode (x ∷ xs) = elim (decode x) [
  | none ↦ get_blocked_ids decode xs
  | some pid ↦ pid ∷ get_blocked_ids decode xs
]

has-present :
    (j k : Text) (xs : List Text) → is_key k xs ≡ true → is_key j xs ≡ (str_eq k j || is_key j xs)
unfolding is_key
has-present j k [] h = cc
has-present j k (y ∷ ys) h =
    ground (arith, h, eq_iff y k, eq_iff y j, eq_iff k j, has-present j k ys)

has-put : (j k : Text) (xs : List Text) → is_key j (put_key k xs) ≡ (str_eq k j || is_key j xs)
unfolding put_key is_key
has-put j k xs = elim (Bool-cases (is_key k xs)) [
  | inr e ↦ rw e refl
  | inl e ↦ rw e (has-present j k xs e)
]

has-absent :
    (j k : Text) (xs : List Text)
    → is_key k xs ≡ false
    → is_key j xs ≡ (not (str_eq k j) && is_key j xs)
unfolding is_key
has-absent j k [] h = ground arith
has-absent j k (y ∷ ys) h = ground (arith, h, eq_iff y k, eq_iff y j, eq_iff k j, has-absent j k ys)

has-delete :
    (j k : Text) (xs : List Text) → is_key j (delete_key k xs) ≡ (not (str_eq k j) && is_key j xs)
unfolding delete_key is_key
has-delete j k [] = ground arith
has-delete j k (x ∷ xs) = ground (arith, eq_iff x k, eq_iff x j, eq_iff k j, has-delete j k xs)

module _ (pretty : Text → Text) where
  -- The peers of a list, as IsBanned compares them.
  pub names : Text → List Text → Bool
  names p [] = false
  names p (q ∷ qs) = str_eq (pretty q) (pretty p) || names p qs

  has-put_all :
      (p : Text) (pids keys : List Text)
      → is_key (pretty p) (put_all pretty pids keys) ≡ (names p pids || is_key (pretty p) keys)
  unfolding put_all names
  has-put_all p [] keys = refl
  has-put_all p (q ∷ qs) keys =
      ground (arith, has-put_all p qs (put_key (pretty q) keys), has-put (pretty p) (pretty q) keys)

  -- The ban manager is a set of peers: one is banned after NewBanManager or SetBlockedIds if the list
  -- names it, after AddBlockedID if it is the one added or was banned before, and after
  -- RemoveBlockedID if it was banned before and is not the one removed.
  pub is_banned_laws :
      (p q : Text) (pids : List Text) (bm : BanManager)
      → (is_banned pretty (new_ban_manager pretty pids) p ≡ names p pids)
        × (is_banned pretty (set_blocked_ids pretty pids bm) p ≡ names p pids)
        × (is_banned pretty (add_blocked_id pretty q bm) p
            ≡ (str_eq (pretty q) (pretty p) || is_banned pretty bm p))
        × (is_banned pretty (remove_blocked_id pretty q bm) p
            ≡ (not (str_eq (pretty q) (pretty p)) && is_banned pretty bm p))
  unfolding is_banned new_ban_manager set_blocked_ids add_blocked_id remove_blocked_id
  is_banned_laws p q pids bm = (
    ground (arith, has-put_all p pids []),
    ground (arith, has-put_all p pids []),
    has-put (pretty p) (pretty q) bm.blocked_ids,
    elim (Bool-cases (is_key (pretty q) bm.blocked_ids)) [
      | inl e ↦ rw e (has-delete (pretty p) (pretty q) bm.blocked_ids)
      | inr e ↦ rw e (has-absent (pretty p) (pretty q) bm.blocked_ids e)
    ],
  )
