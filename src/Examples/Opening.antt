-- ===== src/Examples/Opening.antt =====
-- The theorem about the checks of a new order at a concrete input.
use openbazaar.Prelude.{◌++◌, ◌≡◌, true, none, some, [], ◌∷◌, refl, str_eq, if◌then◌else◌}
use openbazaar.Prelude.Int.{pos}
use openbazaar.Exec.{ok}
use openbazaar.Proto.Common.{Bytes, digital_good}
use openbazaar.Order.Defs.{role_vendor}
use openbazaar.Validation.Defs.{SaleListing, Listing, Order, Checks}
use openbazaar.Validation.Open.{validate_order_open}
use openbazaar.Validation.Escrow.{EscrowWallet, EscrowChecks, validate_payment}
use openbazaar.Validation.Escrowed.{IsKey, IsEscrow, validate_payment-IsEscrow}
use openbazaar.Proto.Orders.{Payment as EscrowPayment, cancelable}
use openbazaar.Validation.Accepted.{IsAcceptable, validate_order_open-IsAcceptable}

-- A shirt in two sizes, of which the vendor has three, and the buyer saw two.
abbrev shirt : SaleListing
shirt = record {
  slug = "shirt";
  skus = some (record { quantity = "2"; others = [] } ∷ []);
  others = 4 ∷ [];
}

abbrev own_shirt : SaleListing
own_shirt = record shirt { skus = some (record { quantity = "3"; others = [] } ∷ []) }

abbrev shirt_listing : Listing
shirt_listing = record {
  metadata = some (record { contract_type = digital_good; escrow_timeout_hours = 24 });
  options = some (record { name = "size"; variants = "S" ∷ "L" ∷ [] } ∷ []);
  shipping_options = [];
}

abbrev checks : Checks
checks = record {
  amount = λ t. if str_eq t "1" then pos 1 else pos 0;
  lower = λ t. t;
  listing_of = λ h. some (some shirt_listing);
  wallet_for = λ coin. some (λ a. some true);
  get_listing = λ slug. some own_shirt;
  marshal = λ l. some l.others;
  validate_buyer_id = ok tt;
  validate_payment = λ hours. ok tt;
  is_pubkey = λ b. true;
  order_hash = some "order";
}

abbrev shirt_order : Order
shirt_order = record {
  listings = some shirt ∷ [];
  payment = some (record { is_direct = true; coin = "BTC"; address = "addr" });
  items =
      some (record {
        listing_hash = "h";
        quantity = "1";
        payment_address = "";
        options = record { name = "size"; value = "L" } ∷ [];
        shipping_option = none;
      })
      ∷ [];
  has_timestamp = true;
  has_buyer_id = true;
  rating_keys = (1 ∷ []) ∷ [];
}

validate_order_open-IsAcceptable_example : IsAcceptable checks shirt_order "order" role_vendor
unfolding validate_order_open
validate_order_open-IsAcceptable_example =
    validate_order_open-IsAcceptable checks shirt_order "order" role_vendor refl

-- A payment that one of buyer and vendor can take.
abbrev wallet : EscrowWallet
wallet = record {
  create_address = λ keys n. some ("one of two", n ∷ []);
  create_with_timeout = none;
}

abbrev escrow_checks : EscrowChecks
escrow_checks = record {
  is_integer = λ t. true;
  decode_hex = λ t. some (9 ∷ []);
  encode_hex = λ b. "script";
  parse_key = λ b. some b;
  derive = λ key chaincode. some (key ++ chaincode);
  decode_peer = λ t. some t;
  vendor_escrow = some (1 ∷ []);
  buyer_escrow = some (2 ∷ []);
  wallet = some wallet;
}

abbrev escrow_payment : EscrowPayment
escrow_payment = record {
  method = cancelable;
  moderator = "";
  amount = "5";
  chaincode = "09";
  address = "one of two";
  script = "script";
  moderator_key = [];
  coin = "BTC";
  escrow_release_fee = "1";
}

validate_payment-IsEscrow_example :
    (chaincode vendor_bytes buyer_bytes vendor buyer : Bytes) × (some (9 ∷ []) ≡ some chaincode)
    × (some (1 ∷ []) ≡ some vendor_bytes)
    × (some (2 ∷ []) ≡ some buyer_bytes)
    × IsKey escrow_checks chaincode vendor_bytes vendor
    × IsKey escrow_checks chaincode buyer_bytes buyer
    × IsEscrow escrow_checks cancelable escrow_payment 24 chaincode buyer vendor
unfolding validate_payment
validate_payment-IsEscrow_example = validate_payment-IsEscrow escrow_checks escrow_payment 24 refl
