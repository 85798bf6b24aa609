-- ===== src/Router/Lifecycle/Progress.antt =====
-- Closing a router cannot get stuck.
use watermill.Prelude.{
  ℕ, zero, suc, true, false, none, some, List, ◌≡◌, ◌≢◌, refl, ap, subst, ◌∙◌, arith, All,
}
use watermill.Go.{Chan, close_chan}
use watermill.Router.Lifecycle.Defs.{
  Stage, LiveHandler, Waiter, Shared, Life, wg_done, end_close, close_error,
}
use watermill.Router.Lifecycle.Steps.{WaitStep, Common, Goes, Runs, Reachable}
use watermill.Router.Lifecycle.Invariant.{counted, chan_if, HandlerInv, SharedInv, Inv-new}
use watermill.Router.Lifecycle.Preserved.{Reach-Inv, Runs-Inv}
use watermill.Router.Lifecycle.Leaving.{life, joined_runs, Moving-Runs, leave_each}

drained : Shared → Shared
drained s = record s { handling = 0; running_handlers = 0 }

-- The messages that are being handled can be finished.
drain :
    (n : ℕ) (s : Shared) (hs : List LiveHandler)
    → s.handling ≡ n
    → s.running_handlers ≡ n
    → Runs (life s hs) (life (drained s) hs)
unfolding drained wg_done
drain zero s hs e f =
    subst (λ t. Runs (life s hs) (life t hs))
      (ap (λ (a, b). record s { handling = a; running_handlers = b }) {y = (0, 0)}
        (ap (λ a. (a, s.running_handlers)) e ∙ ap (λ b. (0, b)) f))
      Runs.halt
drain (suc n) s hs e f =
    let s' = record s { handling = n; running_handlers = n } in
    joined_runs
      (Runs.more Runs.halt (Goes.common (Common.done_message {n = n} {m = n} e (ground arith))))
      (drain n s' hs refl refl)

-- The goroutine of waitForHandlers that waits for the messages can be done.
abbrev waited : Shared → Shared
waited s = record s { handling = 0; running_handlers = 0; running_waiter = Waiter.finished }

finish_waiter :
    (w : Waiter) (s : Shared) (hs : List LiveHandler)
    → s.running_waiter ≡ w
    → w ≢ Waiter.unstarted
    → s.running_handlers ≡ s.handling
    → Runs (life s hs) (life (waited s) hs)
unfolding drained
finish_waiter Waiter.unstarted s hs e ne f = absurd (ne refl)
finish_waiter Waiter.unlocked s hs e ne f =
    Runs.more
      (Runs.more (drain s.handling s hs refl f)
        (Goes.common (Common.waits (WaitStep.lock_running e))))
      (Goes.common (Common.waits (WaitStep.running_done refl refl)))
finish_waiter Waiter.locked s hs e ne f =
    Runs.more (drain s.handling s hs refl f)
      (Goes.common (Common.waits (WaitStep.running_done e refl)))
finish_waiter Waiter.finished s hs e ne f =
    subst (λ x. Runs (life s hs) (life (record (drained s) { running_waiter = x }) hs)) e
      (drain s.handling s hs refl f)

-- What is left to do when the handlers have left their loops.
finish_close :
    (s : Shared) (hs : List LiveHandler)
    → SharedInv s
    → s.is_locked ≡ true
    → s.running_waiter ≡ Waiter.finished
    → s.handlers_wg ≡ 0
    → (t : Shared) × Runs (life s hs) (life t hs)
      × (t.close_result ≡ some none)
      × (t.is_locked ≡ false)
      × (t.handling ≡ 0)
unfolding end_close close_chan close_error drained
finish_close s hs inv held waiter none_left =
    let t = record (drained s) { handlers_waited = true } in
    (
      record t { closed_ch = Chan.closed_chan; is_locked = false; close_result = some none },
      Runs.more
          (Runs.more (drain s.handling s hs refl inv.running)
            (Goes.common (Common.waits (WaitStep.handlers_done (inv.locked held) none_left))))
          (Goes.common (
            Common.waits (
              WaitStep.waited {r = none} held refl waiter
                (ground (arith, inv.finished, inv.locked held))))),
      refl,
      refl,
      refl,
    )

-- Whenever a call of Close waits and every handler of the router has been started, the goroutines of the
-- router can go on by themselves to a state in which that call has returned nil, no message is being
-- handled and every handler has left its loop: no call, no cancellation and no closing of a channel
-- from outside is needed, only that the handler functions return, and that the channel of a subscriber
-- is closed once handleClose has closed the subscriber or the handler's context has ended.
pub close_can_finish :
    (l : Life)
    → Reachable l
    → l.shared.is_locked ≡ true
    → All (λ h. h.stage ≢ Stage.added) l.handlers
    → (m : Life) × Runs l m
      × (m.shared.close_result ≡ some none)
      × (m.shared.is_locked ≡ false)
      × (m.shared.handling ≡ 0)
      × (counted m.handlers ≡ 0)
close_can_finish l reach held started =
    let inv = Reach-Inv Inv-new reach in
    let closed = inv.shared.locked held in
    let all =
      leave_each (waited l.shared) l.handlers (λ e. cc) (inv.shared.closing ∙ ap chan_if closed)
        (subst (λ b. All (HandlerInv b) l.handlers) closed inv.handlers) started
        (ground (arith, inv.wg)) in
    let path =
      joined_runs
        (finish_waiter l.shared.running_waiter l.shared l.handlers refl (inv.shared.waits closed)
          inv.shared.running)
        (Moving-Runs all.path) in
    let inv' = Runs-Inv inv path in
    let (t, rest, result, free, quiet) =
      finish_close all.after all.handlers inv'.shared (all.held ∙ held) all.waiter
        (inv'.wg ∙ all.left) in
    (life t all.handlers, joined_runs path rest, result, free, quiet, all.left)
