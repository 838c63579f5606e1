-- ===== src/Machine/Steps.antt =====
-- The steps from which the handlers are built, as moves of the machine.
use openbazaar.Prelude.{some, Bool, true, false, ◌≡◌, refl, sym, ◌⊎◌, inl, inr, subst, arith}
use openbazaar.Exec.{Result, ok, err, panic, Exec, message_does_not_exist, Error, fail_if}
use openbazaar.Exec.Keeps.{Leaves, leave}
use openbazaar.Proto.Net.{MessageType, OrderMessage, order_open}
use openbazaar.Proto.Orders.{OrderOpen, OrderConfirmation}
use openbazaar.Proto.Codec.{Codec, Transaction}
use openbazaar.Order.Defs.{Order}
use openbazaar.Order.Read.{read_message, order_open_message, order_confirmation_message}
use openbazaar.Order.Put.{put_message, put_by_type, put_single, put_transaction}
use openbazaar.Order.Parked.{park_message, put_error_message}
use openbazaar.Processor.Env.{Env, World, on_order, returning}
use openbazaar.Processor.Events.{Event}
use openbazaar.Processor.Guards.{park_or, with_order_open}
use openbazaar.Machine.Moves.{Flags, flags, with_flag, admissible, Moves, add}

-- PutMessage sets the flag of the type, or none.
flags-put_by_type :
    (t : MessageType) (c : Codec) (m : OrderMessage) (o : Order)
    → (flags (put_by_type t c m o).1 ≡ flags o)
      ⊎ (flags (put_by_type t c m o).1 ≡ with_flag t (flags o))
unfolding put_by_type put_single flags
flags-put_by_type order_open c m o = ground arith
flags-put_by_type _ c m o = ground arith

pub flags-put_message :
    (c : Codec) (m : OrderMessage) (o : Order)
    → (flags (put_message c m o).1 ≡ flags o)
      ⊎ (flags (put_message c m o).1 ≡ with_flag m.message_type (flags o))
unfolding put_message
flags-put_message c m o = flags-put_by_type m.message_type c m o

pub flags-put_transaction :
    (c : Codec) (tx : Transaction) (o : Order) → flags (put_transaction c tx o).1 ≡ flags o
unfolding put_transaction flags
flags-put_transaction c tx o = ground arith

pub flags-park_message :
    (c : Codec) (m : OrderMessage) (o : Order) → flags (park_message c m o).1 ≡ flags o
unfolding park_message flags
flags-park_message c m o = ground arith

pub flags-put_error_message :
    (c : Codec) (m : OrderMessage) (o : Order) → flags (put_error_message c m o).1 ≡ flags o
unfolding put_error_message flags
flags-put_error_message c m o = ground arith

pub opened_flag :
    (c : Codec) (o : Order) {m : OrderOpen}
    → order_open_message c o ≡ ok m
    → (flags o).has_open ≡ true
unfolding order_open_message read_message flags
opened_flag c o h = ground arith

pub confirmed_flag :
    (c : Codec) (o : Order) {m : OrderConfirmation}
    → order_confirmation_message c o ≡ ok m
    → (flags o).has_confirmation ≡ true
unfolding order_confirmation_message read_message flags
confirmed_flag c o h = ground arith

-- Worlds whose order is `f` or some moves from it.
abbrev pub From : Flags → World → Type 0
From f w = Moves f (flags w.order)

module _ (env : Env) (m : OrderMessage) (f : Flags) (w : World) (from : From f w) where
  pub From-same : (t : World) → flags t.order ≡ flags w.order → From f t
  From-same t e = subst (Moves f) (sym e) from

  pub From-put :
      (t : MessageType)
      → m.message_type ≡ t
      → admissible t (flags w.order) ≡ true
      → Leaves (From f) (on_order (put_message env.codec m)) w
  From-put t h a = elim (flags-put_message env.codec m w.order) [
    | inl e ↦ record { holds = subst (Moves f) (sym e) from }
    | inr e ↦ record { holds = add m.message_type from (rw h a) e }
  ]

  From-park : Leaves (From f) (on_order (park_message env.codec m)) w
  From-park = record { holds = subst (Moves f) (sym (flags-park_message env.codec m w.order)) from }

  pub From-park_or :
      {A : Type 0} (r : Result A) (k : A → Exec World (Unit {0}))
      → ((a : A) → r ≡ ok a → Leaves (From f) (k a) w)
      → Leaves (From f) (park_or r (on_order (park_message env.codec m)) k) w
  From-park_or (ok a) k h = h a refl
  From-park_or (err message_does_not_exist) k h = From-park
  From-park_or (err e) k h = leave _ w from
  From-park_or panic k h = leave _ w from

  -- A handler waits for ORDER_OPEN.
  pub From-with_order_open :
      (k : OrderOpen → Exec World (Unit {0}))
      → ((a : OrderOpen) → (flags w.order).has_open ≡ true → Leaves (From f) (k a) w)
      → Leaves (From f) (with_order_open env m k) w
  unfolding with_order_open
  From-with_order_open k h = record {
    holds =
        (From-park_or (order_open_message env.codec w.order) k
          λ a e. h a (opened_flag env.codec w.order e)).holds;
  }

module _ (env : Env) (m : OrderMessage) (f : Flags) where
  -- The call that ends a handler.
  pub From-end :
      {t : MessageType} (e : Event) (v : World)
      → From f v
      → m.message_type ≡ t
      → admissible t (flags v.order) ≡ true
      → Leaves (From f) (returning e (on_order (put_message env.codec m))) v
  From-end e v p h a = record {
    holds = (From-put env m f (record v { event = some e }) p _ h a).holds;
  }

-- What the payments leave alone is still admissible.
pub still :
    (t : MessageType) {g : Flags} (v : World)
    → flags v.order ≡ g
    → admissible t g ≡ true
    → admissible t (flags v.order) ≡ true
still t v s a = subst (λ x. admissible t x ≡ true) (sym s) a

pub fail_if_ok : (b : Bool) (e : Error) {u : Unit {0}} → fail_if b e ≡ ok u → b ≡ false
fail_if_ok b e h = ground arith
