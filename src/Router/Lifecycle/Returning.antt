-- ===== src/Router/Lifecycle/Returning.antt =====
-- What is true when a call of Close returns.
use watermill.Prelude.{true, false, none, some, List, [], ◌∷◌, ◌≡◌, ◌≢◌, refl, sym, ◌∙◌, arith, All}
use watermill.Go.{Chan, close_chan}
use watermill.Router.Lifecycle.Defs.{
  LiveHandler, Waiter, Shared, Life, begin_close, close_unless, end_close, close_error,
  handler_added, watch,
}
use watermill.Router.Lifecycle.Steps.{
  Move, At, WaitStep, RunStep, WatchStep, Common, Goes, Step, Reachable,
}
use watermill.Router.Lifecycle.Invariant.{is_counted, counted, SharedInv, Inv-new}
use watermill.Router.Lifecycle.Preserved.{Reach-Inv}

none_counted : (hs : List LiveHandler) → counted hs ≡ 0 → All (λ h. is_counted h.stage ≡ 0) hs
unfolding counted
none_counted [] e = tt
none_counted (h ∷ hs) e = (omega (arith, e), none_counted hs (omega (arith, e)))

-- What Close has seen when it returns nil.
record Returned (s s' : Shared) : Type 0 where
  held : s.is_locked ≡ true
  waited : s.handlers_waited ≡ true
  finished : s.running_waiter ≡ Waiter.finished
  closed_ch : s'.closed_ch ≡ Chan.closed_chan
  free : s'.is_locked ≡ false

At-close_result :
    {s s' : Shared} {hs hs' : List LiveHandler}
    → At (λ h h'. Move s h s' h') hs hs'
    → s'.close_result ≡ s.close_result
At-close_result (At.here m) = kept m
  where
    kept : {s s' : Shared} {h h' : LiveHandler} → Move s h s' h' → s'.close_result ≡ s.close_result
    kept (Move.start a b c) = refl
    kept (Move.receive a) = refl
    kept (Move.handle a b) = refl
    kept (Move.channel_closed a b) = refl
    kept (Move.done_handler a b) = refl
    kept (Move.delete a b) = refl
    kept (Move.close_stopped a) = refl
    kept (Move.router_closes a b c) = refl
    kept (Move.subscriber_closed a) = refl
    kept (Move.context_done a b c) = refl
At-close_result (At.there t) = At-close_result t

WaitStep-Returned :
    {s s' : Shared}
    → SharedInv s
    → WaitStep s s'
    → s.close_result ≡ none
    → s'.close_result ≡ some none
    → Returned s s'
unfolding end_close close_chan close_error
WaitStep-Returned inv (WaitStep.handlers_done a b) e f = cc
WaitStep-Returned inv (WaitStep.lock_running a) e f = cc
WaitStep-Returned inv (WaitStep.running_done a b) e f = cc
WaitStep-Returned inv (WaitStep.waited held w d g) e f = record {
  held = held;
  waited = w;
  finished = d;
  closed_ch = ground (arith, inv.finished, inv.locked held);
  free = ground (arith, inv.finished, inv.locked held);
}
WaitStep-Returned inv (WaitStep.timed_out held g) e f =
    absurd (ground (arith, inv.finished, inv.locked held))

Common-Returned :
    {s s' : Shared}
    → SharedInv s
    → Common s s'
    → s.close_result ≡ none
    → s'.close_result ≡ some none
    → Returned s s'
unfolding begin_close close_unless close_chan
Common-Returned inv (Common.done_message a b) e f = cc
Common-Returned inv (Common.waits w) e f = WaitStep-Returned inv w e f
Common-Returned inv (Common.runs (RunStep.run_failed a)) e f = cc
Common-Returned inv (Common.runs (RunStep.run_waits a)) e f = cc
Common-Returned inv (Common.runs (RunStep.run_cancels a b)) e f = cc
Common-Returned inv (Common.runs (RunStep.run_returns a b)) e f = cc
Common-Returned inv (Common.watches (WatchStep.watcher_ready a)) e f = cc
Common-Returned inv (Common.watches (WatchStep.watcher_leaves a b)) e f = cc
Common-Returned inv (Common.watches (WatchStep.all_stopped a b)) e f = cc
Common-Returned inv (Common.watches (WatchStep.watcher_checks a b)) e f = cc
Common-Returned inv (Common.watches (WatchStep.watcher_closes a b g)) e f =
    absurd (ground (arith, inv.closing))

-- When a step makes the call of Close that closes the router return nil, in whatever order the
-- goroutines and the calls from outside have run before it: both goroutines of waitForHandlers were done
-- before that, every handler of the router has left its loop, so that none waits to be started, and
-- closedCh is closed. A call of Close whose wait has timed out does not return nil, then.
pub close_waits_for_handlers :
    (l m : Life)
    → Reachable l
    → Step l m
    → l.shared.close_result ≡ none
    → m.shared.close_result ≡ some none
    → All (λ h. is_counted h.stage ≡ 0) m.handlers
      × (l.shared.handlers_waited ≡ true)
      × (l.shared.running_waiter ≡ Waiter.finished)
      × (m.shared.closed_ch ≡ Chan.closed_chan)
      × (m.shared.is_locked ≡ false)
unfolding begin_close close_unless close_chan handler_added watch
close_waits_for_handlers l m reach (Step.goes (Goes.move at)) e f =
    let kept = At-close_result at in cc
close_waits_for_handlers l m reach (Step.goes (Goes.common c)) e f =
    let inv = Reach-Inv Inv-new reach in
    let k = Common-Returned inv.shared c e f in
    (
      none_counted l.handlers (sym inv.wg ∙ inv.shared.drained k.held k.waited),
      k.waited,
      k.finished,
      k.closed_ch,
      k.free,
    )
close_waits_for_handlers l m reach (Step.touched at) e f = cc
close_waits_for_handlers l m reach (Step.handler_registered free) e f = cc
close_waits_for_handlers l m reach (Step.run_called a) e f =
    absurd (not_watched l.handlers l.shared e f)
  where
    not_watched :
        (hs : List LiveHandler) (s : Shared)
        → s.close_result ≡ none
        → (watch hs s).close_result ≢ some none
    not_watched [] s e f = cc
    not_watched (h ∷ hs) s e f = cc
close_waits_for_handlers l m reach (Step.close_called free g) e f =
    absurd (let inv = Reach-Inv Inv-new reach in ground (arith, inv.shared.closing))
