-- ===== src/Router/Lifecycle/Safety.antt =====
-- What a router never does, whatever the order of its steps.
use watermill.Prelude.{Bool, true, List, ◌≡◌, ◌≢◌, arith}
use mathlib.Core.List.{Memᴰ}
use mathlib.Core.List.{Memᴰ}
use watermill.Go.{Outcome, close_chan}
use watermill.Router.Lifecycle.Defs.{
  Stage, LiveHandler, Life, wg_done, begin_close, close_unless, end_close,
}
use watermill.Router.Lifecycle.Steps.{Reachable}
use watermill.Router.Lifecycle.Invariant.{is_counted, counted, Inv-new}
use watermill.Router.Lifecycle.Preserved.{Reach-Inv}

abbrev pub without_result : {A : Type 0} → Outcome A → Outcome (Unit {0})
without_result (Outcome.done a) = Outcome.done tt
without_result (Outcome.panics p) = Outcome.panics p

-- The calls that may panic and are made in a state, with what becomes of them.
pub data Call (l : Life) : Outcome (Unit {0}) → Type 0 where
  -- close(r.closingInProgressCh), at the start of a call of Close
  close_starts : Call l (without_result (begin_close l.shared).0)
  -- close(r.closedCh), when the wait is over
  close_ends :
      (timedout : Bool)
      → l.shared.is_locked ≡ true
      → Call l (without_result (end_close timedout l.shared).0)
  -- runningHandlersWg.Done(), at the end of handleMessage
  message_handled :
      l.shared.handling ≢ 0 → Call l (without_result (wg_done l.shared.running_handlers))
  -- handlersWg.Done(), when a handler has left its loop
  handler_left :
      (h : LiveHandler)
      → Memᴰ h l.handlers
      → h.stage ≡ Stage.leaving
      → Call l (without_result (wg_done l.shared.handlers_wg))

counted-leaving :
    (h : LiveHandler) {hs : List LiveHandler} → Memᴰ h hs → h.stage ≡ Stage.leaving → counted hs ≢ 0
unfolding counted is_counted
counted-leaving h (Memᴰ.head {x} {xs} same) e = ground arith
counted-leaving h (Memᴰ.tail {x} {xs} m) e = ground (arith, counted-leaving h m e)

-- In every order of the goroutines of the router, no call of these panics: Close closes no channel
-- twice, neither when it starts to wait nor when it returns, in whatever way, and no WaitGroup goes
-- below zero, neither when a message has been handled nor when a handler has left its loop.
pub router_never_panics :
    (l : Life) → Reachable l → (out : Outcome (Unit {0})) → Call l out → out ≡ Outcome.done tt
unfolding begin_close close_unless end_close close_chan wg_done
router_never_panics l reach out Call.close_starts =
    ground (arith, (Reach-Inv Inv-new reach).shared.closing)
router_never_panics l reach out (Call.close_ends timedout held) =
    let inv = (Reach-Inv Inv-new reach).shared in ground (arith, inv.finished, inv.locked held)
router_never_panics l reach out (Call.message_handled some_run) =
    ground (arith, (Reach-Inv Inv-new reach).shared.running)
router_never_panics l reach out (Call.handler_left h m e) =
    ground (arith, (Reach-Inv Inv-new reach).wg, counted-leaving h m e)

-- In every order of the goroutines of the router, the counter of handlersWg is the number of handlers,
-- started or not, whose goroutine has not left its loop and called Done, and the counter of
-- runningHandlersWg is the number of messages that are being handled.
pub wait_groups_count :
    (l : Life)
    → Reachable l
    → (l.shared.handlers_wg ≡ counted l.handlers) × (l.shared.running_handlers ≡ l.shared.handling)
wait_groups_count l reach = let inv = Reach-Inv Inv-new reach in (inv.wg, inv.shared.running)
