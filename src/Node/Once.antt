-- ===== src/Node/Once.antt =====
-- core/network.go: an order message that comes in more than once.
use openbazaar.Prelude.{
  true, List, [], ◌∷◌, ◌++◌, ◌≡◌, refl, ap, eq_refl, Bool-cases, Option-cases, inl, inr, Option,
  arith, if◌then◌else◌,
}
use openbazaar.Exec.{Result, ok, err, panic}
use openbazaar.Proto.Common.{Text}
use openbazaar.Proto.Net.{NetMessage}
use openbazaar.Processor.Env.{Env}
use openbazaar.Node.Defs.{Node, NodeEnv, has_message_id, save_id, find_order}
use openbazaar.Processor.Events.{Event}
use openbazaar.Processor.Process.{Outcome, process_message_top}
use openbazaar.Node.Orders.{
  send_ack_message, is_duplicate, is_order_type, begin, end_transaction, process_order,
  handle_order, handle_order_message,
}

has_message_id-save_id : (id : Text) (ids : List Text) → has_message_id id (save_id id ids) ≡ true
unfolding save_id has_message_id
has_message_id-save_id id ids = elim (Bool-cases (has_message_id id ids)) [
  | inl e ↦ rw e e
  | inr e ↦ rw (e, eq_refl id) refl
]

has_message_id-ack :
    (ne : NodeEnv) (id to : Text) (n : Node)
    → ne.can_save_id ≡ true
    → has_message_id id (send_ack_message ne id to n).incoming ≡ true
unfolding send_ack_message
has_message_id-ack ne id to n h = rw h (has_message_id-save_id id n.incoming)

saved_again :
    (ne : NodeEnv) (id : Text) (ids : List Text)
    → has_message_id id ids ≡ true
    → (if ne.can_save_id then save_id id ids else ids) ≡ ids
unfolding save_id
saved_again ne id ids h = elim (Bool-cases ne.can_save_id) [
  | inl e ↦ rw (e, h) refl
  | inr e ↦ rw e refl
]

ack_known :
    (ne : NodeEnv) (id to : Text) (t : Node)
    → has_message_id id t.incoming ≡ true
    → send_ack_message ne id to t ≡ record t { acked = t.acked ++ (id, to) ∷ [] }
unfolding send_ack_message
ack_known ne id to t h =
    ap {B = Node} (λ ids. record t { incoming = ids; acked = t.acked ++ (id, to) ∷ [] })
      (saved_again ne id t.incoming h)

handle_known :
    (env : Env) (ne : NodeEnv) (from : Text) (m : NetMessage) (t : Node)
    → has_message_id m.message_id t.incoming ≡ true
    → handle_order_message env ne from m t
      ≡ (ok tt, record t { acked = t.acked ++ (m.message_id, from) ∷ [] })
unfolding handle_order_message handle_order is_duplicate
handle_known env ne from m t h =
    rw h (ap {B = Result (Unit {0}) × Node} (λ u. (ok tt, u)) (ack_known ne m.message_id from t h))

-- The node after any messages have been handled.
pub data Later (s : Node) : Node → Type 0 where
  now : Later s s
  handled :
      {t : Node} (env : Env) (ne : NodeEnv) (from : Text) (m : NetMessage)
      → Later s t
      → Later s (handle_order_message env ne from m t).1

save_id-keeps :
    (id other : Text) (ids : List Text)
    → has_message_id id ids ≡ true
    → has_message_id id (save_id other ids) ≡ true
unfolding save_id has_message_id
save_id-keeps id other ids h = ground (arith, h)

end_transaction-incoming :
    (ne : NodeEnv) (out : Outcome) (r : Result (Option Event)) (n : Node)
    → (end_transaction ne out r n).1.incoming ≡ n.incoming
end_transaction-incoming ne out (ok event) n = elim (Bool-cases ne.can_commit) [
  | inl e ↦ rw e refl
  | inr e ↦ rw e refl
]
end_transaction-incoming ne out (err e) n = refl
end_transaction-incoming ne out panic n = refl

handle_order-incoming :
    (env : Env) (ne : NodeEnv) (from : Text) (m : NetMessage) (n : Node)
    → (handle_order env ne from m n).1.incoming ≡ n.incoming
unfolding handle_order process_order
handle_order-incoming env ne from m n = elim (Bool-cases (is_duplicate m n)) [
  | inl e ↦ rw e refl
  | inr e ↦ elim (Bool-cases (is_order_type m.net_type)) [
    | inr f ↦ rw (e, f) refl
    | inl f ↦ elim (Option-cases (ne.unmarshal_order m.payload)) [
      | inl g ↦ rw (e, f, g) refl
      | inr (om, g) ↦
          rw (e, f, g)
            (let out : Outcome =
                process_message_top env from om (find_order om.order_id n.orders) (begin n) in
              end_transaction-incoming ne out out.result n)
    ]
  ]
]

handle-keeps_id :
    (id : Text) (env : Env) (ne : NodeEnv) (from : Text) (m : NetMessage) (n : Node)
    → has_message_id id n.incoming ≡ true
    → has_message_id id (handle_order_message env ne from m n).1.incoming ≡ true
unfolding handle_order_message send_ack_message
handle-keeps_id id env ne from m n h =
    let k : has_message_id id (handle_order env ne from m n).1.incoming ≡ true =
      rw (handle_order-incoming env ne from m n) h in
    elim (Bool-cases ne.can_save_id) [
      | inl e ↦ rw e (save_id-keeps id m.message_id _ k)
      | inr e ↦ rw e k
    ]

Later-keeps_id :
    (id : Text) {s t : Node}
    → Later s t
    → has_message_id id s.incoming ≡ true
    → has_message_id id t.incoming ≡ true
Later-keeps_id id now h = h
Later-keeps_id id (handled {t = t} env ne from m l) h =
    handle-keeps_id id env ne from m t (Later-keeps_id id l h)

-- An order message is processed at most once: when it has been handled, whatever came of it, and its ID
-- could be saved, then after any other messages, however many, a message with the same ID, whoever sends
-- it, changes neither the orders nor anything else of the node but that an ACK is sent again.
pub handle_order_message-once :
    (env env' : Env) (ne ne' : NodeEnv) (from from' : Text) (m m' : NetMessage) (n t : Node)
    → ne.can_save_id ≡ true
    → m'.message_id ≡ m.message_id
    → Later (handle_order_message env ne from m n).1 t
    → handle_order_message env' ne' from' m' t
      ≡ (ok tt, record t { acked = t.acked ++ (m'.message_id, from') ∷ [] })
unfolding handle_order_message
handle_order_message-once env env' ne ne' from from' m m' n t can same later =
    let known : has_message_id m.message_id (handle_order_message env ne from m n).1.incoming
        ≡ true =
      has_message_id-ack ne m.message_id from (handle_order env ne from m n).1 can in
    handle_known env' ne' from' m' t (rw same (Later-keeps_id m.message_id later known))
