-- ===== src/Examples/Lifecycles.antt =====
-- The life of a router in concrete orders of its steps.
use watermill.Prelude.{true, false, List, none, some, ◌≡◌, refl, All}
use watermill.Go.{Outcome, Chan, close_chan}
use watermill.Router.Lifecycle.Defs.{
  Watcher, Waiter, Shared, LiveHandler, Life, new_life, wg_done, handler_added, signalled,
  begin_close, close_unless, end_close, close_error, watch,
}
use watermill.Router.Lifecycle.Steps.{
  Ends, Move, Touch, At, WaitStep, RunStep, WatchStep, Common, Goes, Step, now, later, Reachable,
  Runs,
}
use watermill.Router.Lifecycle.Invariant.{is_counted, counted}
use watermill.Router.Lifecycle.Safety.{Call, without_result, router_never_panics, wait_groups_count}
use watermill.Router.Lifecycle.Returning.{close_waits_for_handlers}
use watermill.Router.Lifecycle.Progress.{close_can_finish}

abbrev Trace : Type 0
Trace = (l : Life) × Reachable l

abbrev move :
    {l : Life} {s : Shared} {hs : List LiveHandler}
    → At (λ h h'. Move l.shared h s h') l.handlers hs
    → Step l (record { shared = s; handlers = hs })
move at = Step.goes (Goes.move at)

abbrev common :
    {l : Life} {s : Shared}
    → Common l.shared s
    → Step l (record { shared = s; handlers = l.handlers })
common c = Step.goes (Goes.common c)

abbrev and_then : (t : Trace) {l : Life} → Step t.0 l → Trace
and_then t {l} st = (l, later t.1 st)

-- a handler is added, Run starts it, and Close is called
abbrev closing : Trace
unfolding handler_added signalled watch begin_close close_unless close_chan
closing =
    and_then
      (and_then
        (and_then
          (and_then (and_then (new_life, now) (Step.handler_registered refl))
            (Step.run_called refl))
          (move (At.here (Move.start refl tt refl))))
        (common (Common.runs (RunStep.run_waits refl))))
      (Step.close_called {r = none} refl refl)

close_can_finish_example :
    (m : Life) × Runs closing.0 m
    × (m.shared.close_result ≡ some none)
    × (m.shared.is_locked ≡ false)
    × (m.shared.handling ≡ 0)
    × (counted m.handlers ≡ 0)
unfolding handler_added signalled watch begin_close close_unless close_chan
close_can_finish_example = close_can_finish closing.0 closing.1 refl ((λ e. cc), tt)

-- Close has seen no running message when the handler receives one; then the handler stops
abbrev late : Trace
unfolding handler_added signalled watch begin_close close_unless close_chan wg_done
late =
    and_then
      (and_then
        (and_then
          (and_then
            (and_then
              (and_then
                (and_then
                  (and_then (and_then closing (common (Common.waits (WaitStep.lock_running refl))))
                    (common (Common.waits (WaitStep.running_done refl refl))))
                  (move (At.here (Move.receive refl))))
                (move (At.here (Move.handle refl (λ e. cc)))))
              (move (At.here (Move.router_closes (λ e. cc) refl refl))))
            (move (At.here (Move.subscriber_closed refl))))
          (move (At.here (Move.channel_closed refl (Ends.context_ended refl)))))
        (move (At.here (Move.done_handler {n = 0} refl refl))))
      (common (Common.waits (WaitStep.handlers_done refl refl)))

wait_groups_count_example :
    (late.0.shared.handlers_wg ≡ counted late.0.handlers)
    × (late.0.shared.running_handlers ≡ late.0.shared.handling)
wait_groups_count_example = wait_groups_count late.0 late.1

router_never_panics_example : without_result (end_close false late.0.shared).0 ≡ Outcome.done tt
unfolding handler_added signalled watch begin_close close_unless close_chan wg_done
router_never_panics_example = router_never_panics late.0 late.1 _ (Call.close_ends false refl)

-- Close returns nil while a message is being handled.
abbrev returned_early : Trace
unfolding handler_added signalled watch begin_close close_unless close_chan wg_done end_close
    close_error
returned_early =
    and_then late (common (Common.waits (WaitStep.waited {r = none} refl refl refl refl)))

returned_early_runs :
    (returned_early.0.shared.close_result ≡ some none) × (returned_early.0.shared.handling ≡ 1)
unfolding handler_added signalled watch begin_close close_unless close_chan wg_done end_close
    close_error
returned_early_runs = (refl, refl)

close_waits_for_handlers_example :
    All (λ h. is_counted h.stage ≡ 0) returned_early.0.handlers
    × (late.0.shared.handlers_waited ≡ true)
    × (late.0.shared.running_waiter ≡ Waiter.finished)
    × (returned_early.0.shared.closed_ch ≡ Chan.closed_chan)
    × (returned_early.0.shared.is_locked ≡ false)
unfolding handler_added signalled watch begin_close close_unless close_chan wg_done end_close
    close_error
close_waits_for_handlers_example =
    close_waits_for_handlers late.0 returned_early.0 late.1
      (common (Common.waits (WaitStep.waited {r = none} refl refl refl refl))) refl refl

-- Run starts without handlers, one is added before the watcher waits for it, and stops: the router
-- is not closed, and its watcher waits for another handler.
abbrev missed : Trace
unfolding handler_added signalled watch wg_done
missed =
    and_then
      (and_then
        (and_then
          (and_then
            (and_then
              (and_then (and_then (new_life, now) (Step.run_called refl))
                (Step.handler_registered refl))
              (common (Common.watches (WatchStep.watcher_ready refl))))
            (move (At.here (Move.start refl tt refl))))
          (Step.touched (At.here (Touch.source_closes (λ e. cc)))))
        (move (At.here (Move.channel_closed refl (Ends.source_ended refl)))))
      (move (At.here (Move.done_handler {n = 0} refl refl)))

missed_watcher : (missed.0.shared.handlers_wg ≡ 0) × (missed.0.shared.watcher ≡ Watcher.for_handler)
unfolding handler_added signalled watch wg_done
missed_watcher = (refl, refl)
