-- ===== src/Commands/Settled.antt =====
-- core/: what the end of a command has done when it returns no error.
use openbazaar.Prelude.{
  ℕ, ◌-◌, Bool, true, false, Option, some, List, [], subst, ◌∷◌, ◌++◌, ◌≡◌, refl, sym, ap, ◌∙◌, inl,
  inr, if◌then◌else◌, Option-cases,
}
use openbazaar.Exec.{Error, Result, ok, err, panic, Exec, external}
use openbazaar.Exec.Invert.{step-ok, external-ok, ok_injective}
use openbazaar.Proto.Common.{Bytes, Text}
use openbazaar.Proto.Net.{MessageType, NetType, NetMessage, OrderMessage}
use openbazaar.Proto.Codec.{Kind, Body}
use openbazaar.Order.Defs.{Order}
use openbazaar.Processor.Env.{Env, World, reliably_send}
use openbazaar.Processor.Payments.{own_message, sign_order_message}
use openbazaar.Processor.Process.{Outcome, process_message_top}
use openbazaar.Node.Defs.{NodeEnv, find_order}
use openbazaar.Node.Orders.{save_if}
use openbazaar.Commands.Defs.{
  Commander, Shop, Deal, Pending, end_update, or_roll_back, roll_back_wallet, commit_wallet,
  dropped, process, send, settle, carry_message, saved_deal, undone_deal,
}

or_roll_back-ok :
    {A : Type 0} (p : Option Pending) (m : Exec Deal A) {d t : Deal} {a : A}
    → or_roll_back p m d ≡ (ok a, t)
    → m d ≡ (ok a, t)
or_roll_back-ok {A} p m {d = d} {t = t} {a = a} h = go (m d) h
  where
    go :
        (x : Result A × Deal)
        → (let y : Result A × Deal = elim x.0 [
          | ok b ↦ (ok b, x.1)
          | err e ↦ (err e, roll_back_wallet p (x.1))
          | panic ↦ (panic, x.1)
        ] in
            y ≡ (ok a, t))
        → x ≡ (ok a, t)
    go (ok b, u) k = k
    go (err e, u) k = cc
    go (panic, u) k = cc

-- A message of the node's own: of a type, about an order, with a body of its kind, signed by the node.
pub record IsOwn (env : Env) (id : Text) (t : MessageType) (k : Kind) (msg : Body k)
    (m : OrderMessage) : Type 0 where
  pub ser : Bytes
  pub of_order : m.order_id ≡ id
  pub of_type : m.message_type ≡ t
  pub has_body : env.marshal_any k msg ≡ some m.message
  pub unsigned : env.marshal_order_message (record m { signature = [] }) ≡ some ser
  pub signed : env.sign ser ≡ some m.signature

-- A Message that carries an order message.
pub record Carries (env : Env) (m : OrderMessage) (n : NetMessage) : Type 0 where
  pub carries_order : n.net_type ≡ NetType.order
  pub has_payload : env.marshal_payload m ≡ some n.payload

pub own_message-IsOwn :
    (env : Env) (id : Text) (t : MessageType) (k : Kind) (msg : Body k) {m : OrderMessage}
    → own_message env id t k msg ≡ ok m
    → IsOwn env id t k msg m
unfolding own_message sign_order_message
own_message-IsOwn env id t k msg {m = m} h =
    let (any, ha, k1) = external-ok (env.marshal_any k msg) _ h in
    let draft : OrderMessage = record {
      order_id = id;
      message_type = t;
      message = any;
      signature = [];
    } in
    let (ser, hs, k2) = external-ok (env.marshal_order_message draft) _ k1 in
    let (sig, hg, k3) = external-ok (env.sign ser) _ k2 in
    let e : record draft { signature = sig } ≡ m = ok_injective k3 in
    subst (λ x. IsOwn env id t k msg x) e
      (record {
        ser = ser;
        of_order = refl;
        of_type = refl;
        has_body = ha;
        unsigned = hs;
        signed = hg;
      })

pub carry_message-Carries :
    (c : Commander) (i : ℕ) (m : OrderMessage) {n : NetMessage}
    → carry_message c i m ≡ ok n
    → Carries c.env m n
unfolding carry_message
carry_message-Carries c i m {n = n} h =
    let (payload, hp, k) = external-ok (Env.marshal_payload c.env m) _ h in
    subst (λ x. Carries c.env m x) (ok_injective k)
      (record { carries_order = refl; has_payload = hp })

-- What ProcessMessage makes of a message of the node's own.
abbrev pub own_outcome : Commander → Text → OrderMessage → List Order → World → Outcome
own_outcome c from m os w = process_message_top c.env from m (find_order m.order_id os) w

-- The message that was sent, and what the processor made of it.
pub record IsSettled (c : Commander) (from to : Text) (message : OrderMessage)
    (carried : NetMessage) (pending : Pending) (d t : Deal) : Type 0 where
  pub no_error : dropped (own_outcome c from message d.orders d.world).result ≡ ok tt
  pub orders_after : t.orders ≡ save_if (own_outcome c from message d.orders d.world).saved d.orders
  pub sent :
      t.world.outbox
      ≡ (own_outcome c from message d.orders d.world).world.outbox ++ (to, carried) ∷ []
  pub paid : t.paid ≡ d.paid ++ pending.spends
  pub ended : t.unended ≡ d.unended - 1

sent_lem :
    (c : Commander) (to : Text) (n : NetMessage) (d t : Deal)
    → send c to n d ≡ (ok tt, t)
    → t ≡ record d { world = record (d.world) { outbox = d.world.outbox ++ (to, n) ∷ [] } }
unfolding send reliably_send
sent_lem c to n d t h = elim (Option-cases (c.env.send_error to n)) [
  | inl e ↦ sym (ap {B = Deal} (λ q. q.1) h) ∙ rw (send, reliably_send, e) refl
  | inr (x, e) ↦
      let k : (send c to n d).0 ≡ ok tt = ap {B = Result (Unit {0})} (λ q. q.0) h in
      let l : err x ≡ ok tt = rw (send, reliably_send, e) at k in cc
]

pub chosen-ok :
    {S : Type 0} (b : Bool) (u v : S) (e : Error) {t : S}
    → ◌≡◌ {A = Result (Unit {0}) × S} (if b then (ok tt, u) else (err e, v)) (ok tt, t)
    → t ≡ u
chosen-ok true u v e h = cc
chosen-ok false u v e h = cc

committed_lem :
    (p : Pending) (d t : Deal)
    → commit_wallet (some p) d ≡ (ok tt, t)
    → t ≡ record d { unended = d.unended - 1; paid = d.paid ++ p.spends }
committed_lem p d t h =
    chosen-ok p.purse.can_commit _ (record d { unended = d.unended - 1 }) external h

pub settle-IsSettled :
    (c : Commander) (pending : Pending) (from to : Text) (m : OrderMessage) (n : NetMessage)
    (d t : Deal)
    → settle c (some pending) from m to n d ≡ (ok tt, t)
    → IsSettled c from to m n pending d t
unfolding settle process
settle-IsSettled c pending from to m n d t h =
    let (_, u, h1, k) = step-ok (or_roll_back (some pending) (process c from m)) _ h in
    let (_, v, h2, h3) = step-ok (or_roll_back (some pending) (send c to n)) _ k in
    let p1 = or_roll_back-ok (some pending) (process c from m) h1 in
    let e2 = sent_lem c to n u v (or_roll_back-ok (some pending) (send c to n) h2) in
    let e3 = committed_lem pending v t h3 in
    let out = own_outcome c from m d.orders d.world in
    let e1 : record d { orders = save_if out.saved d.orders; world = out.world } ≡ u =
      ap {B = Deal} (λ q. q.1) p1 in
    record {
      no_error = ap {B = Result (Unit {0})} (λ q. q.0) p1;
      orders_after = cc;
      sent = cc;
      paid = cc;
      ended = cc;
    }

pub end_update-ok :
    (ne : NodeEnv) (x : Result (Unit {0}) × Deal) (s t : Shop)
    → end_update ne x s ≡ (ok tt, t)
    → (d : Deal) × (x ≡ (ok tt, d)) × (t ≡ saved_deal d s)
end_update-ok ne (ok u, d) s t h =
    (d, refl, chosen-ok ne.can_commit (saved_deal d s) (undone_deal d s) external h)
end_update-ok ne (err e, d) s t h = cc
end_update-ok ne (panic, d) s t h = cc
