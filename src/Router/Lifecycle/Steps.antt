-- ===== src/Router/Lifecycle/Steps.antt =====
-- message/router.go: the steps of the router's goroutines, in any order, and of what lies outside:
-- messages come, calls of AddHandler, Close, Run and Stop are made, and a subscriber closes its channel
-- of its own accord, at any time. What a subscriber does for the router is documented in
-- message/pubsub.go: Close, and the end of the context given to Subscribe, close its channel.
use watermill.Prelude.{ℕ, suc, ◌+◌, true, false, Option, List, [], ◌∷◌, ◌++◌, ◌≡◌, ◌≢◌}
use watermill.Go.{Err, Outcome, Chan}
use watermill.Router.Lifecycle.Defs.{
  Stage, Guard, LiveHandler, Waiter, RunStage, Watcher, Shared, Life, new_life, new_live, wg_done,
  cut_off, handler_added, begin_close, end_close, watch, watcher_checked, stop,
}

-- RunHandlers may start a handler: Run has begun.
abbrev pub IsRunning : RunStage → Type 0
IsRunning RunStage.not_running = ⊥
IsRunning _ = Unit {0}

-- Why the channel of messages of a handler is closed: handleClose has called Close on the subscriber,
-- the context has ended, or the subscriber has closed it otherwise.
pub data Ends (h : LiveHandler) : Type 0 where
  closed_by_router : h.subscriber_closes ≢ 0 → Ends h
  context_ended : h.cancelled ≡ true → Ends h
  source_ended : h.is_cut_off ≡ true → Ends h

-- the goroutines of one handler `h`, on the shared state `s`
pub data Move (s : Shared) (h : LiveHandler) : Shared → LiveHandler → Type 0 where
  -- RunHandlers has subscribed; it holds handlersLock
  start :
      s.is_locked ≡ false
      → IsRunning s.run_stage
      → h.stage ≡ Stage.added
      → Move s h s (record h { stage = Stage.reading })
  -- the loop of handler.run
  receive : h.stage ≡ Stage.reading → Move s h s (record h { stage = Stage.received })
  handle :
      h.stage ≡ Stage.received
      → s.running_waiter ≢ Waiter.locked
      → Move s h
          (record s { running_handlers = s.running_handlers + 1; handling = s.handling + 1 })
          (record h { stage = Stage.reading })
  channel_closed :
      h.stage ≡ Stage.reading → Ends h → Move s h s (record h { stage = Stage.leaving })
  -- the goroutine of RunHandlers, after handler.run
  done_handler :
      {n : ℕ}
      → h.stage ≡ Stage.leaving
      → wg_done s.handlers_wg ≡ Outcome.done n
      → Move s h (record s { handlers_wg = n }) (record h { stage = Stage.stopping })
  delete :
      s.is_locked ≡ false
      → h.stage ≡ Stage.stopping
      → Move s h s (record h { stage = Stage.deleted })
  close_stopped :
      h.stage ≡ Stage.deleted → Move s h s (record h { stage = Stage.stopped; cancelled = true })
  -- handleClose, once the handler runs
  router_closes :
      h.stage ≢ Stage.added
      → h.guard ≡ Guard.waiting
      → s.closing_in_progress_ch ≡ Chan.closed_chan
      → Move s h s (record h { guard = Guard.closing_subscriber })
  subscriber_closed :
      h.guard ≡ Guard.closing_subscriber
      → Move s h s (record h {
        guard = Guard.gone;
        cancelled = true;
        subscriber_closes = h.subscriber_closes + 1;
      })
  context_done :
      h.stage ≢ Stage.added
      → h.guard ≡ Guard.waiting
      → h.cancelled ≡ true
      → Move s h s (record h { guard = Guard.gone })

-- what comes from outside to one handler
pub data Touch (h : LiveHandler) : LiveHandler → Type 0 where
  -- Handler.Stop, or the context given to Run or RunHandlers
  stop_called : {h' : LiveHandler} → stop h ≡ (Outcome.done tt, h') → Touch h h'
  source_closes : h.stage ≢ Stage.added → Touch h (cut_off h)

-- One member of a list changes.
pub data At (R : LiveHandler → LiveHandler → Type 0)
    : List LiveHandler → List LiveHandler → Type 0 where
  here : {h h' : LiveHandler} {hs : List LiveHandler} → R h h' → At R (h ∷ hs) (h' ∷ hs)
  there : {h : LiveHandler} {hs hs' : List LiveHandler} → At R hs hs' → At R (h ∷ hs) (h ∷ hs')

-- waitForHandlers with its two goroutines and WaitGroupTimeout, whose select takes either case when
-- both are ready: it may time out after the goroutines are done
pub data WaitStep (s : Shared) : Shared → Type 0 where
  handlers_done :
      s.closed ≡ true → s.handlers_wg ≡ 0 → WaitStep s (record s { handlers_waited = true })
  lock_running :
      s.running_waiter ≡ Waiter.unlocked → WaitStep s (record s { running_waiter = Waiter.locked })
  running_done :
      s.running_waiter ≡ Waiter.locked
      → s.running_handlers ≡ 0
      → WaitStep s (record s { running_waiter = Waiter.finished })
  waited :
      {s' : Shared} {r : Option Err}
      → s.is_locked ≡ true
      → s.handlers_waited ≡ true
      → s.running_waiter ≡ Waiter.finished
      → end_close false s ≡ (Outcome.done r, s')
      → WaitStep s s'
  timed_out :
      {s' : Shared} {r : Option Err}
      → s.is_locked ≡ true
      → end_close true s ≡ (Outcome.done r, s')
      → WaitStep s s'

-- Run, after it has started the watcher
pub data RunStep (s : Shared) : Shared → Type 0 where
  run_failed :
      s.run_stage ≡ RunStage.starting → RunStep s (record s { run_stage = RunStage.failed })
  run_waits :
      s.run_stage ≡ RunStage.starting → RunStep s (record s { run_stage = RunStage.waiting })
  run_cancels :
      s.run_stage ≡ RunStage.waiting
      → s.closing_in_progress_ch ≡ Chan.closed_chan
      → RunStep s (record s { run_stage = RunStage.cancelled })
  run_returns :
      s.run_stage ≡ RunStage.cancelled
      → s.closed_ch ≡ Chan.closed_chan
      → RunStep s (record s { run_stage = RunStage.returned })

-- the goroutine of watchAllHandlersStopped
pub data WatchStep (s : Shared) : Shared → Type 0 where
  watcher_ready :
      s.watcher ≡ Watcher.unready → WatchStep s (record s { watcher = Watcher.for_handler })
  watcher_leaves :
      s.watcher ≡ Watcher.for_handler
      → s.closed_ch ≡ Chan.closed_chan
      → WatchStep s (record s { watcher = Watcher.gone })
  all_stopped :
      s.watcher ≡ Watcher.for_stop
      → s.handlers_wg ≡ 0
      → WatchStep s (record s { watcher = Watcher.checking })
  watcher_checks :
      s.watcher ≡ Watcher.checking
      → s.is_locked ≡ false
      → WatchStep s (record s { watcher = watcher_checked s.closed })
  watcher_closes :
      {s' : Shared} {r : Option (Option Err)}
      → s.watcher ≡ Watcher.closing
      → s.is_locked ≡ false
      → begin_close (record s { watcher = Watcher.gone }) ≡ (Outcome.done r, s')
      → WatchStep s s'

-- the goroutines that do not touch a handler
pub data Common (s : Shared) : Shared → Type 0 where
  -- the deferred call of handleMessage
  done_message :
      {n m : ℕ}
      → s.handling ≡ suc n
      → wg_done s.running_handlers ≡ Outcome.done m
      → Common s (record s { handling = n; running_handlers = m })
  waits : {s' : Shared} → WaitStep s s' → Common s s'
  runs : {s' : Shared} → RunStep s s' → Common s s'
  watches : {s' : Shared} → WatchStep s s' → Common s s'

-- a step of the goroutines of the router
pub data Goes (l : Life) : Life → Type 0 where
  move :
      {s : Shared} {hs : List LiveHandler}
      → At (λ h h'. Move l.shared h s h') l.handlers hs
      → Goes l (record { shared = s; handlers = hs })
  common : {s : Shared} → Common l.shared s → Goes l (record { shared = s; handlers = l.handlers })

-- a step of the router or from outside
pub data Step (l : Life) : Life → Type 0 where
  goes : {m : Life} → Goes l m → Step l m
  touched : {hs : List LiveHandler} → At Touch l.handlers hs → Step l (record l { handlers = hs })
  -- AddHandler, Run and Close, by anyone
  handler_registered :
      l.shared.is_locked ≡ false
      → Step l
          (record { shared = handler_added l.shared; handlers = l.handlers ++ (new_live ∷ []) })
  run_called :
      l.shared.run_stage ≡ RunStage.not_running
      → Step l (record l { shared = watch l.handlers l.shared })
  close_called :
      {s : Shared} {r : Option (Option Err)}
      → l.shared.is_locked ≡ false
      → begin_close l.shared ≡ (Outcome.done r, s)
      → Step l (record l { shared = s })

pub data Reach (l : Life) : Life → Type 0 where
  now : Reach l l
  later : {m n : Life} → Reach l m → Step m n → Reach l n

-- the states of a router that NewRouter has made
abbrev pub Reachable : Life → Type 0
Reachable l = Reach new_life l

-- what a router does when nothing more comes from outside
pub data Runs (l : Life) : Life → Type 0 where
  halt : Runs l l
  more : {m n : Life} → Runs l m → Goes m n → Runs l n
