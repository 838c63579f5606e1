-- ===== src/Lib.antt =====
-- OpenBazaar's orders and messages: the life of an order between a buyer, a vendor and a moderator, as
-- models/orders.go, orders/ and core/ of this repository run it, what it costs, and the messages that
-- net/ sends until they are acknowledged.
--
-- The parts and how they interact. A node receives an order message (net/pb/msg.proto, Proto/Net)
-- that wraps a typed message (orders/pb/orders.proto, Proto/Orders). ProcessMessage in
-- orders/processor.go (Processor/Process) takes the order's row, checks the signature
-- (Processor/Guards) and calls the handler of the message's type; then it runs the parked messages in
-- the order of their types and saves the row. The handlers are
--   order_open.go                                            Processor/Opening
--   order_reject.go, order_cancel.go, order_confirmation.go  Processor/Decisions
--   order_fulfillment.go, payment_sent.go, and the handler of rating_signatures.go
--                                                            Processor/Progress
--   order_complete.go, refund.go                             Processor/Completion, Processor/Escrow
--   dispute_open.go                                          Processor/Disputes
--   processIncomingPayment and processOutgoingPayment of transactions.go, the sending of
--   rating_signatures.go, utils/listing.go, utils/sign.go    Processor/Payments
-- and their events, events/orders.go, are Processor/Events. A handler reads and writes the order by
-- the methods of models/orders.go: the type Order is Order/Defs; the getters are Order/Read;
-- PutTransaction and PutMessage are Order/Put; the parked and errored messages are Order/Parked;
-- IsFunded, IsFulfilled, FundingTotal and CanReject to CanDispute are Order/Status; toProtobuf is
-- Order/Contract. A Go name such as processOrderReject is here process_order_reject.
--
-- Exec is how the Go code runs: a method with a mutable receiver is a function from the state to a
-- result and the state that it leaves; a result is a value, an error or a panic, and what was written
-- before an error stays written. The state of a handler is the record World of Processor/Env: the
-- order, what was saved for sending, the events of the commit hooks, and the returned event.
--
-- The serializers (the record Codec of Proto/Codec) and the wallets, keys, clock and messenger (the
-- records Wallet and Env of Processor/Env) are parameters. What is assumed of the serializers is the
-- record IsLawful: what was written is read back, a JSON document is not empty, and the empty wire
-- form is that of the empty list. Examples/Toy has a codec for which it holds.
--
-- Machine is an abstract view of an order: which messages it has, and the moves that add one. The
-- rules of Exec/Keeps follow a handler through its steps, whichever way it ends; Exec/Invert tells what
-- a chain of calls that succeeded went through.
--
-- Validation is validateOrderOpen of orders/order_open.go, on the fields of the messages that it reads
-- (Validation/Defs): one item in Validation/Items, the rest in Validation/Open; ValidatePayment of
-- orders/utils/validate.go is Validation/Escrow. The processor takes validateOrderOpen as a parameter,
-- since it sees the same messages with other fields.
--
-- ValidateBuyerID and ValidateRating of that file are Validation/Identity and Validation/Rating.
--
-- Listings is validateListing of core/listings.go, on the fields of a listing that it reads
-- (Listings/Defs) with the limits of core/limits.go: the slug and the metadata in Listings/Metadata, the
-- item in Listings/Items, its options and SKUs in Listings/Options and Listings/Skus, taxes, coupons and
-- moderators in Listings/Terms, shipping and the other checks of one type or format in
-- Listings/Shipping, the whole in Listings/Validate. The number of combinations of the options is an
-- int that wraps around; Listings/Options writes that out.
--
-- Commands is what the node's user does with an order: ConfirmOrder and CancelOrder of core/confirm.go
-- and core/cancel.go (Commands/Decisions), RefundOrder and RejectOrder of core/refund.go and
-- core/reject.go (Commands/Refunds), FulfillOrder of core/fulfillment.go (Commands/Fulfillments), and the
-- releases of escrowed money that they build (Commands/Release). A command runs ProcessMessage on a
-- message of the node's own inside a database transaction; the state (Commands/Defs) is the node, the
-- number of wallet transactions that are begun and not ended, and what the wallets have sent. A wallet
-- (the record Purse) is a parameter, also here: what it sends counts from its Commit on.
-- Commands/Rules are the rules by which the proofs follow a command. Commands/Life puts these five commands
-- and the messages that come in together, as the steps of a node.
--
-- Pricing is the second half of orders/order_open.go: convertCurrencyAmount and getSelectedSku are
-- Pricing/Convert, one turn of the loop of CalculateOrderTotal is price_item of Pricing/Items,
-- calculateShippingTotalForListings is Pricing/Shipping, CalculateOrderTotal is Pricing/Totals. The
-- messages of Pricing/Defs have the fields that pricing reads. Floating point, exchange rates and
-- currency definitions are the record Prices.
--
-- Messenger is net/messenger.go. Its state (Messenger/Defs) is the table of outgoing messages as the
-- open transaction sees it and as it is committed, the commit hooks, the goroutines that send, and the
-- counter of the WaitGroup. ReliablySendMessage, ProcessACK, SendACK and retryAllMessages are
-- Messenger/Send, the calls in any order are the steps of Messenger/Steps. prepEncryptedMessage and
-- decryptMessage are Messenger/Envelope over net/encryption.go, Messenger/Encryption; trySendMessage is
-- Messenger/Deliver over models/snf_servers.go, Messenger/Servers; downloadMessages is
-- Messenger/Download. What a peer acknowledges goes through handleAckMessage of core/network.go to
-- ProcessACK of orders/processor.go and of the messenger, all three in Processor/Acks.
--
-- Node is handleOrderMessage of core/network.go with isDuplicate and sendAckMessage: it runs
-- ProcessMessage in a transaction on the row that the database has (Node/Orders). The STORE handler and
-- syncMessages of that file, which pin files and send bytes again, are left out.
--
-- Network is net/ban_manager.go (Network/Bans), handleNewMessage of net/service.go (Network/Service),
-- which calls the handlers as downloadMessages does, and sendMessage of net/message_sender.go
-- (Network/Sender).
--
-- Backoff is shouldWeQuery of orders/transactions.go and shouldWeRetry of net/messenger.go.
--
-- Every loop of the code is over a list and is structural recursion here, but for that of sendMessage,
-- which has fuel for two turns: the second turn never goes on to a third. Amounts are the integers of
-- Prelude/Int, as in the code, where they are big integers; times are natural numbers, and the escrow
-- timeout is an int64 of nanoseconds that wraps around (Validation/Escrow). sort.Slice is modelled as the
-- insertion sort that it is on fewer than twelve elements; a longer list may come in another order among
-- messages of one type. In ProcessMessage, a failure to read the row or to save it is a failure of the
-- commit. In Network/Sender, `sent` counts what reaches a stream in the end, also a write that goes on
-- after the context is done.
--
-- Not modelled: PurchaseListing, CompleteOrder, OpenDispute and the wallet's notices of transactions in
-- core/, messageSenderForPeer of net/message_sender.go; a NaN among the tax percentages, for which
-- big.NewFloat panics, and a private key of the node that is not ed25519; the scans of the database and of the wallets in orders/, the loops over timers and
-- channels and the race over the map of senders in net/, and the rest of the node, its API, its database
-- and its channels in core/, api/, database/, channels/ and repo/, which are input and output.
pub mod Prelude
pub mod Proto
pub mod Exec
pub mod Order
pub mod Processor
pub mod Machine
pub mod Backoff
pub mod Messenger
pub mod Network
pub mod Node
pub mod Pricing
pub mod Validation
pub mod Listings
pub mod Commands
pub mod Examples
