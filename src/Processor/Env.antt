-- ===== src/Processor/Env.antt =====
-- orders/processor.go: what a handler works on, and the libraries that the processor calls.
use openbazaar.Prelude.{ℕ, Bool, Option, none, some, List, [], ◌∷◌, ◌++◌}
use openbazaar.Exec.{Error, ok, err, Exec}
use openbazaar.Proto.Common.{Bytes, Text, SignedListing}
use openbazaar.Proto.Net.{OrderMessage, NetMessage}
use openbazaar.Proto.Orders.{EscrowSig, OrderOpen, Rating, RatingSignature}
use openbazaar.Proto.Codec.{Codec, Kind, Body, Transaction}
use openbazaar.Order.Defs.{Order, OrderRole}
use openbazaar.Order.Contract.{Contract}
use openbazaar.Processor.Events.{Event}

-- iwallet.Wallet as the handlers use it: `none` and `false` stand for an error that is returned.
pub record Wallet : Type 0 where
  pub get_transaction : Text → Option Transaction
  -- Begin, WatchAddress and Commit, in this order
  pub watch_address : Text → Bool
  -- whether the wallet is an iwallet.Escrow
  pub is_escrow : Bool
  -- SignMultisigTransaction with the key of the chain code, and the redeem script
  pub sign_multisig : Transaction → Bytes → Bytes → Option (List EscrowSig)
  -- Begin, BuildAndSend and Commit, in this order
  pub build_and_send : Transaction → List (List EscrowSig) → Bytes → Bool

pub record Env : Type 0 where
  pub codec : Codec
  -- the node's own peer.ID; peer.ID.Pretty and peer.Decode
  pub identity : Text
  pub pretty : Text → Text
  pub decode : Text → Option Text
  -- peer.ID.ExtractPublicKey, proto.Marshal of an OrderMessage, PubKey.Verify, proto.Equal
  pub extract_public_key : Text → Option Bytes
  pub marshal_order_message : OrderMessage → Option Bytes
  pub verify : Bytes → Bytes → Bytes → Option Bool
  pub equal : OrderMessage → OrderMessage → Bool
  -- ptypes.MarshalAny of a message, and of an OrderMessage as the payload of a Message
  pub marshal_any : (k : Kind) → Body k → Option Bytes
  pub marshal_payload : OrderMessage → Option Bytes
  -- proto.Marshal of a Contract
  pub marshal_contract : Contract → Option Bytes
  -- PrivKey.Sign with the node's identity key
  pub sign : Bytes → Option Bytes
  -- hex of twenty random bytes, and the clock
  pub random_id : Option Text
  pub now : ℕ
  -- multiwallet.WalletForCurrencyCode
  pub wallet_for : Text → Option Wallet
  -- Messenger.ReliablySendMessage: the error that it returns, if any
  pub send_error : Text → NetMessage → Option Error
  -- utils.HashListing in base 58, proto.Marshal of a RatingSignature, crypto.UnmarshalPublicKey
  pub hash_listing : SignedListing → Option Text
  pub marshal_rating_signature : RatingSignature → Option Bytes
  pub unmarshal_public_key : Bytes → Option Bytes
  -- hex.DecodeString, and whether big.Int.SetString reads the text in base 10
  pub decode_hex : Text → Option Bytes
  pub is_integer : Text → Bool
  -- the checks of orders/order_open.go and orders/utils/validate.go, and the rating index
  pub validate_order_open : OrderOpen → Text → OrderRole → Option Error
  pub error_text : Error → Text
  pub validate_rating : Rating → Option Error
  pub add_rating : Rating → Option Error

-- The transaction in progress: the order that the handler was given, what it saved for sending, the
-- events of its commit hooks, the addresses that it watches, the ratings that it stored, the escrow
-- payments that it broadcast, and the event that it returns.
pub record World : Type 0 where
  pub order : Order
  pub outbox : List (Text × NetMessage)
  pub hooks : List Event
  pub watched : List Text
  pub ratings : List Rating
  pub released : List Transaction
  pub event : Option Event

-- A method call on the order.
abbrev pub on_order : {A : Type 0} → Exec Order A → Exec World A
on_order m w = let (r, o) = m w.order in (r, record w { order = o })

-- `return event, call`: the event is returned whether or not the call fails.
abbrev pub returning : Event → Exec World (Unit {0}) → Exec World (Unit {0})
returning e m w = m (record w { event = some e })

-- Messenger.ReliablySendMessage
unfoldable pub reliably_send : Env → Text → NetMessage → Exec World (Unit {0})
reliably_send env peer msg w = elim (env.send_error peer msg) [
  | none ↦ (ok tt, record w { outbox = w.outbox ++ (peer, msg) ∷ [] })
  | some e ↦ (err e, w)
]

-- `dbtx.RegisterCommitHook(func() { op.bus.Emit(event) })`
abbrev pub register_hook : Event → Exec World (Unit {0})
register_hook e w = (ok tt, record w { hooks = w.hooks ++ e ∷ [] })
