-- ===== src/Machine/Saved.antt =====
-- ProcessMessage of orders/processor.go: the loop over the parked messages, and the order that is saved.
use openbazaar.Prelude.{Option, none, some, List, [], ◌∷◌, sym, subst, Bool-cases, inl, inr, arith}
use openbazaar.Exec.{Result, ok, err, panic}
use openbazaar.Exec.Keeps.{Leaves, leave, after_if, after_step}
use openbazaar.Proto.Common.{Text}
use openbazaar.Proto.Net.{OrderMessage}
use openbazaar.Order.Defs.{Order, zero_order}
use openbazaar.Order.Read.{get_parked_messages}
use openbazaar.Order.Parked.{put_error_message}
use openbazaar.Processor.Env.{Env, World}
use openbazaar.Processor.Process.{
  process_message, process_parked, process_all_parked, saved_outcome, process_rest, process_failed,
  process_done, process_known, process_message_top, sort_by_type, parked_outcome, is_order_open,
}
use openbazaar.Machine.Moves.{flags}
use openbazaar.Machine.Invariant.{IsConsistent}
use openbazaar.Machine.Steps.{flags-put_error_message, flags-park_message}
use openbazaar.Machine.Handlers.{process_message-IsConsistent}

-- The world's order is consistent.
abbrev Fine : World → Type 0
Fine w = IsConsistent (flags w.order)

-- The row is consistent, if there is one.
abbrev pub IsFineRow : Option Order → Type 0
IsFineRow none = Unit
IsFineRow (some o) = IsConsistent (flags o)

module _ (env : Env) (peer : Text) (m : OrderMessage) where
  parked-Fine :
      (p : OrderMessage) (w : World) → Fine w → Leaves Fine (process_parked env peer m p) w
  unfolding process_parked flags
  parked-Fine p w h = record {
    holds =
        after_parked (process_message env peer p w) (process_message-IsConsistent env peer p w h);
  }
    where
      after_parked :
          (x : Result (Unit {0}) × World)
          → Fine x.1
          → let y : Result (Unit {0}) × World = elim x.0 [
            | ok u ↦ (ok tt, record (x.1) { event = w.event })
            | err e ↦ (
              ok tt,
              record (x.1) { order = (put_error_message env.codec m x.1.order).1; event = w.event },
            )
            | panic ↦ (panic, x.1)
          ] in
            Fine y.1
      after_parked (ok u, t) h = h
      after_parked (err e, t) h =
          subst IsConsistent (sym (flags-put_error_message env.codec m t.order)) h
      after_parked (panic, t) h = h

  all_parked-Fine :
      (ps : List OrderMessage) (w : World)
      → Fine w
      → Leaves Fine (process_all_parked env peer m ps) w
  unfolding process_all_parked
  all_parked-Fine [] w h = leave (ok tt) w h
  all_parked-Fine (p ∷ ps) w h =
      after_if {b = env.equal p m} (λ _. all_parked-Fine ps w h)
        (λ _. after_step (λ t q. q) (parked-Fine p w h) λ _ t _ q. all_parked-Fine ps t q)

  saved-Fine : (x : Result (Unit {0}) × World) → Fine x.1 → IsFineRow (saved_outcome x).saved
  saved-Fine (ok u, t) h = h
  saved-Fine (err e, t) h = tt
  saved-Fine (panic, t) h = tt

  rest-Fine :
      (w : World) (r : Result (List OrderMessage))
      → Fine w
      → IsFineRow (process_rest env peer m w r).saved
  unfolding process_rest
  rest-Fine w (ok ps) h = saved-Fine _ (all_parked-Fine (sort_by_type ps) w h).holds
  rest-Fine w (err e) h = tt
  rest-Fine w panic h = tt

  failed-Fine :
      (t : World) (x : Result (Unit {0}) × Order)
      → Fine t
      → IsConsistent (flags x.1)
      → IsFineRow (process_failed env peer m t x).saved
  unfolding process_failed
  failed-Fine t (ok u, copy) h c = rest-Fine t (get_parked_messages env.codec t.order) h
  failed-Fine t (err e, copy) h c = c
  failed-Fine t (panic, copy) h c = tt

  done-Fine :
      (o : Order) (x : Result (Unit {0}) × World)
      → IsConsistent (flags o)
      → Fine x.1
      → IsFineRow (process_done env peer m o x).saved
  unfolding process_done
  done-Fine o (ok u, t) c h = rest-Fine t (get_parked_messages env.codec t.order) h
  done-Fine o (err e, t) c h =
      failed-Fine t (put_error_message env.codec m o) h
        (subst IsConsistent (sym (flags-put_error_message env.codec m o)) c)
  done-Fine o (panic, t) c h = tt

  known-Fine :
      (o : Order) (w : World)
      → IsConsistent (flags o)
      → IsFineRow (process_known env peer m o w).saved
  unfolding process_known
  known-Fine o w c =
      done-Fine o _ c
        (process_message-IsConsistent env peer m (record w { order = o; event = none }) c)

  parked_outcome-Fine :
      (x : Result (Unit {0}) × Order) (w : World)
      → IsConsistent (flags x.1)
      → IsFineRow (parked_outcome x w).saved
  parked_outcome-Fine (ok u, o) w c = c
  parked_outcome-Fine (err e, o) w c = tt
  parked_outcome-Fine (panic, o) w c = tt

new-IsConsistent : (id : Text) → IsConsistent (flags (record zero_order { id = id }))
unfolding flags
new-IsConsistent id = ground arith

-- ProcessMessage keeps the rows of the database consistent: for a message of any type, whether or not
-- the order is known, with the parked messages that it processes afterwards, the order that it saves,
-- if it saves one, is consistent if the row was.
pub process_message_top-IsConsistent :
    (env : Env) (peer : Text) (m : OrderMessage) (row : Option Order) (w : World)
    → IsFineRow row
    → IsFineRow (process_message_top env peer m row w).saved
unfolding process_message_top
process_message_top-IsConsistent env peer m (some o) w h = known-Fine env peer m o w h
process_message_top-IsConsistent env peer m none w h =
    elim (Bool-cases (is_order_open m.message_type)) [
      | inl opens ↦ rw opens (known-Fine env peer m zero_order w (new-IsConsistent ""))
      | inr other ↦ rw other (
          parked_outcome-Fine env peer m _ w (
            subst IsConsistent
              (sym (flags-park_message env.codec m (record zero_order { id = m.order_id })))
              (new-IsConsistent m.order_id)))
    ]
