-- ===== src/Examples/Listing.antt =====
-- The results on listings at a signed listing of a shirt in two sizes.
use openbazaar.Prelude.{
  true, false, Option, none, some, List, [], ◌∷◌, ◌≡◌, refl, str_eq, ◌==◌, ltb, if◌then◌else◌,
}
use openbazaar.Prelude.Int.{pos}
use openbazaar.Exec.{ok}
use openbazaar.Proto.Common.{Text, PbId}
use openbazaar.Pricing.Defs.{Selection, no_code, percent_discount}
use openbazaar.Validation.Identity.{Keys}
use openbazaar.Validation.Rating.{
  Rating, RatingLibs, validate_rating, IsGenuineRating, validate_rating-IsGenuineRating,
}
use openbazaar.Listings.Defs.{
  Metadata, Image, ListingOption, Sku, ListingItem, ShippingOption, Listing, SignedListing, Libs,
}
use openbazaar.Listings.Validate.{validate_listing}
use openbazaar.Listings.Publishable.{IsPublishable, validate_listing-IsPublishable}

abbrev keys : Keys
keys = record {
  identity_key = λ b. some b;
  verify = λ key ser sig. some true;
  peer_id_of = λ key. some "vendor";
  escrow_key = λ b. some b;
  parse_signature = λ b. some b;
  verify_hash = λ sig sum key. true;
  sum = λ b. b;
  sum_text = λ t. [];
}

abbrev json : List Selection → Option Text
json [] = some "null"
json (s ∷ ss) = some (Selection.variant s)

abbrev libs : Libs
libs = record {
  testnet = false;
  contains = λ s t. false;
  is_past = λ t. false;
  divisibility_of = λ code. if str_eq code "BTC" then some 8 else none;
  big_int = λ t. if str_eq t "2500" then some (pos 2500) else none;
  is_cid = λ t. str_eq t "Qm";
  is_peer_id = λ t. true;
  json = json;
  is_zero = λ f. f == 0;
  over_hundred = λ f. ltb 100 f;
  rounded = λ f. f;
  under_min = λ f. false;
  over_max = λ f. ltb 1000 f;
  is_country = λ r. true;
  marshal = λ l. some (7 ∷ []);
  keys = keys;
}

abbrev image : Image
image = record {
  filename = "shirt.jpg";
  original = "Qm";
  large = "Qm";
  medium = "Qm";
  small = "Qm";
  tiny = "Qm";
}

abbrev size : ListingOption
size = record {
  name = "size";
  description = "";
  variants =
      record { name = "small"; image = none } ∷ record { name = "large"; image = some image } ∷ [];
}

abbrev sku_of : Text → Sku
sku_of t = record { selections = record { option = "size"; variant = t } ∷ []; product_id = "" }

abbrev shirt : ListingItem
shirt = record {
  title = "Shirt";
  description = "";
  processing_time = "";
  tags = "cotton" ∷ [];
  images = image ∷ [];
  categories = [];
  condition = "";
  options = size ∷ [];
  skus = sku_of "small" ∷ sku_of "large" ∷ [];
  price = "2500";
  crypto_listing_price_modifier = 0;
}

abbrev by_mail : ShippingOption
by_mail = record {
  name = "mail";
  shipping_type = pos 1;
  regions = pos 41 ∷ [];
  services = record { name = "letter"; estimated_delivery = "soon"; price = "5" } ∷ [];
}

abbrev metadata : Metadata
metadata = record {
  contract_type = pos 0;
  format = pos 0;
  expiry = some (pos 9);
  accepted_currencies = "BTC" ∷ [];
  language = "";
  escrow_timeout_hours = 24;
  pricing_currency = some (record { code = "BTC"; divisibility = 8 });
}

abbrev merchant : PbId
merchant = record {
  peer_id = "vendor";
  handle = "";
  pubkeys = some (record {
    identity = 1 ∷ [];
    escrow =
        2 ∷ 1 ∷ 1 ∷ 1 ∷ 1 ∷ 1 ∷ 1 ∷ 1 ∷ 1 ∷ 1 ∷ 1 ∷ 1 ∷ 1 ∷ 1 ∷ 1 ∷ 1 ∷ 1 ∷ 1 ∷ 1 ∷ 1 ∷ 1 ∷ 1 ∷ 1
        ∷ 1 ∷ 1 ∷ 1 ∷ 1 ∷ 1 ∷ 1 ∷ 1 ∷ 1 ∷ 1 ∷ 1 ∷ [];
  });
  sig = 5 ∷ [];
}

abbrev listing : Listing
listing = record {
  slug = "shirt";
  vendor_id = some merchant;
  metadata = some metadata;
  item = some shirt;
  shipping_options = by_mail ∷ [];
  taxes = record { tax_type = "VAT"; tax_regions = pos 41 ∷ []; percentage = 19 } ∷ [];
  coupons = record { title = "ten"; code = no_code; discount = percent_discount 10 } ∷ [];
  moderators = "moderator" ∷ [];
  terms_and_conditions = "";
  refund_policy = "";
}

abbrev signed_listing : SignedListing
signed_listing = record { listing = some listing; cid = ""; signature = 3 ∷ [] }

accepted : validate_listing libs signed_listing ≡ ok listing
unfolding validate_listing
accepted = refl

validate_listing-IsPublishable_example : IsPublishable libs signed_listing listing
validate_listing-IsPublishable_example =
    validate_listing-IsPublishable libs signed_listing listing accepted

abbrev rating : Rating
rating = record {
  vendor_id = some merchant;
  vendor_sig = some (record { slug = "shirt"; rating_key = 4 ∷ []; vendor_signature = 5 ∷ [] });
  buyer_id = some merchant;
  buyer_sig = 6 ∷ [];
  overall = 5;
  quality = 4;
  description = 3;
  delivery_speed = 2;
  customer_service = 1;
  review = "good";
  rating_signature = 7 ∷ [];
}

abbrev rating_libs : RatingLibs
rating_libs = record {
  keys = keys;
  marshal_signature = λ s. some [];
  marshal_rating = λ r. some [];
  decode_peer = λ t. some [];
  matches = λ p k. true;
}

validate_rating-IsGenuineRating_example : IsGenuineRating rating_libs rating
unfolding validate_rating
validate_rating-IsGenuineRating_example = validate_rating-IsGenuineRating rating_libs rating refl
