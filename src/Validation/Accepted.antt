-- ===== src/Validation/Accepted.antt =====
-- orders/order_open.go: what is known of an order that validateOrderOpen accepts.
use openbazaar.Prelude.{
  Bool, true, false, Option, some, List, [], ◌∷◌, ◌≡◌, ap, ◌∙◌, ◌⊎◌, inl, inr, not, map, str_eq,
  eq_iff, bytes_eq, bytes_eq_sound, is_nil, ◌==◌, length, All, Bool-cases, arith,
}
use openbazaar.Exec.{ok, validation_error}
use openbazaar.Exec.Invert.{bind_result-ok, external-ok, search-ok, pointer-ok, fail_if-ok}
use openbazaar.Proto.Common.{Bytes, Text}
use openbazaar.Order.Defs.{OrderRole, is_role_vendor}
use openbazaar.Validation.Defs.{SkuStock, SaleListing, Payment, Order, Checks}
use openbazaar.Validation.Items.{check_items}
use openbazaar.Validation.Open.{
  zeroed, check_listing, check_listings, check_as_vendor, check_rating_keys, validate_order_open,
}
use openbazaar.Validation.Valid.{IsValidItem, test_of, passed, check_items-IsValidItem}

-- A listing with the quantities of its SKUs put to "0".
abbrev pub without_quantities : SaleListing → List SkuStock → SaleListing
without_quantities l skus =
    let zero : SkuStock → SkuStock = λ s. record s { quantity = "0" } in
    record l { skus = some (map zero skus) }

-- The vendor's listing under the slug has the same bytes, the quantities apart.
pub record IsForSale (c : Checks) (slot : Option SaleListing) : Type 0 where
  pub theirs : SaleListing
  pub mine : SaleListing
  pub skus : List SkuStock
  pub my_skus : List SkuStock
  pub ser : Bytes
  pub is_listing : slot ≡ some theirs
  pub is_known : c.get_listing theirs.slug ≡ some mine
  pub their_skus : theirs.skus ≡ some skus
  pub mine_skus : mine.skus ≡ some my_skus
  pub my_bytes : c.marshal (without_quantities mine my_skus) ≡ some ser
  pub their_bytes : c.marshal (without_quantities theirs skus) ≡ some ser

check_listing-IsForSale :
    (c : Checks) (slot : Option SaleListing) → check_listing c slot ≡ ok tt → IsForSale c slot
unfolding check_listing
check_listing-IsForSale c slot done =
    let (theirs, ht, k) = pointer-ok slot _ done in
    let (mine, hm, k1) = search-ok validation_error (c.get_listing theirs.slug) _ k in
    let (my_skus, hms', k2) = pointer-ok mine.skus _ k1 in
    let (skus, hss, k3) = pointer-ok theirs.skus _ k2 in
    let (my_ser, hms, k4) = external-ok (c.marshal (zeroed mine my_skus)) _ k3 in
    let (ser, hs, k5) = external-ok (c.marshal (zeroed theirs skus)) _ k4 in
    record {
      theirs = theirs;
      mine = mine;
      skus = skus;
      my_skus = my_skus;
      ser = ser;
      is_listing = ht;
      is_known = hm;
      their_skus = hss;
      mine_skus = hms';
      my_bytes =
          hms
          ∙ ap {B = Option Bytes} (λ b. some b)
              (bytes_eq_sound my_ser ser (passed (bytes_eq my_ser ser) k5));
      their_bytes = hs;
    }

check_listings-IsForSale :
    (c : Checks) (ls : List (Option SaleListing))
    → check_listings c ls ≡ ok tt
    → All (λ slot. IsForSale c slot) ls
unfolding check_listings
check_listings-IsForSale c [] done = tt
check_listings-IsForSale c (l ∷ ls) done =
    let (_, hl, k) = bind_result-ok (check_listing c l) _ done in
    (check_listing-IsForSale c l hl, check_listings-IsForSale c ls k)

check_rating_keys_lem :
    (c : Checks) (ks : List Bytes)
    → check_rating_keys c ks ≡ ok tt
    → All (λ k. c.is_pubkey k ≡ true) ks
unfolding check_rating_keys
check_rating_keys_lem c [] done = tt
check_rating_keys_lem c (k ∷ ks) done =
    let (h, l) = fail_if-ok (not (c.is_pubkey k)) _ _ done in
    (test_of (c.is_pubkey k) h, check_rating_keys_lem c ks l)

-- What an accepted order is.
pub record IsAcceptable (c : Checks) (order : Order) (order_id : Text) (role : OrderRole)
    : Type 0 where
  pub valid_items : All (λ slot. IsValidItem c slot) order.items
  pub for_sale : (is_role_vendor role ≡ false) ⊎ All (λ slot. IsForSale c slot) order.listings
  pub one_key_each : length order.rating_keys ≡ length order.items
  pub keys_parse : All (λ k. c.is_pubkey k ≡ true) order.rating_keys
  pub is_hash : c.order_hash ≡ some order_id

as_vendor-IsForSale :
    (c : Checks) (role : OrderRole) (has_key : Text → Option Bool) (p : Payment) (order : Order)
    → check_as_vendor c role has_key p order ≡ ok tt
    → (is_role_vendor role ≡ false) ⊎ All (λ slot. IsForSale c slot) order.listings
unfolding check_as_vendor
as_vendor-IsForSale c role has_key p order done = elim (Bool-cases (is_role_vendor role)) [
  | inr e ↦ inl e
  | inl e ↦
      let (_, h, _) = bind_result-ok (check_listings c order.listings) _ (rw e at done) in
      inr (check_listings-IsForSale c order.listings h)
]

-- What validateOrderOpen promises: an order that it accepts has, for each of its items, a listing that is
-- no classified, with a positive quantity, a value for each option of the listing that is one of its
-- variants, and a shipping service of the listing if any was chosen; it has one rating key for each
-- item, all of them public keys; its hash is the order ID; and if the node is the vendor, each listing
-- of the order has the bytes of the vendor's own listing, the quantities in stock apart.
pub validate_order_open-IsAcceptable :
    (c : Checks) (order : Order) (order_id : Text) (role : OrderRole)
    → validate_order_open c order order_id role ≡ ok tt
    → IsAcceptable c order order_id role
unfolding validate_order_open
validate_order_open-IsAcceptable c order order_id role done =
    let (_, k) = fail_if-ok (is_nil order.listings) _ _ done in
    let (payment, _, k1) = search-ok validation_error order.payment _ k in
    let (_, k2) = fail_if-ok (is_nil order.items) _ _ k1 in
    let (_, k3) = fail_if-ok (not order.has_timestamp) _ _ k2 in
    let (_, k4) = fail_if-ok (not order.has_buyer_id) _ _ k3 in
    let (_, k5) = fail_if-ok (is_nil order.rating_keys) _ _ k4 in
    let (has_key, _, k6) = external-ok (c.wallet_for payment.coin) _ k5 in
    let (_, hv, k7) = bind_result-ok (check_as_vendor c role has_key payment order) _ k6 in
    let (timeout, hi, k8) = bind_result-ok (check_items c order.items 0) _ k7 in
    let (_, _, k9) = bind_result-ok c.validate_buyer_id _ k8 in
    let (_, _, k10) = bind_result-ok (c.validate_payment timeout) _ k9 in
    let (same, k11) = fail_if-ok (not (length order.rating_keys == length order.items)) _ _ k10 in
    let (_, hk, k12) = bind_result-ok (check_rating_keys c order.rating_keys) _ k11 in
    let (hash, hh, k13) = external-ok c.order_hash _ k12 in
    record {
      valid_items = check_items-IsValidItem c order.items 0 timeout hi;
      for_sale = as_vendor-IsForSale c role has_key payment order hv;
      one_key_each = ground (arith, same);
      keys_parse = check_rating_keys_lem c order.rating_keys hk;
      is_hash =
          hh
          ∙ ap {B = Option Text} (λ t. some t)
              ((eq_iff hash order_id).0 (passed (str_eq hash order_id) k13));
    }
