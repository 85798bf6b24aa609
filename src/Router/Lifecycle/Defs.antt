-- ===== src/Router/Lifecycle/Defs.antt =====
-- message/router.go: what Close, Run, the watcher of stopped handlers and the goroutines of a handler
-- share, and the sections of code that run without interleaving. handlersLock and closedLock are held
-- by the call of Close that closes the router until it returns; otherwise a method that takes them is
-- one step.
use watermill.Prelude.{
  ℕ, ◌+◌, ◌-◌, Bool, true, false, ◌=ℕ◌, if◌then◌else◌, Option, none, some, List, [],
}
use watermill.Go.{Err, PanicValue, Outcome, Chan, Go, resume, close_chan}

-- where the goroutine of a handler that RunHandlers starts is
pub data Stage : Type 0 where
  -- not started; waiting for a message; before runningHandlersWg.Add; closing the publisher
  added reading received leaving : Stage
  -- after handlersWg.Done; out of the map of handlers; h.stopped is closed
  stopping deleted stopped : Stage

-- where the goroutine of handleClose is
pub data Guard : Type 0 where
  waiting closing_subscriber gone : Guard

pub record LiveHandler : Type 0 where
  pub stage : Stage
  pub guard : Guard
  -- the context of the handler is cancelled
  pub cancelled : Bool
  -- how often the router has closed the subscriber
  pub subscriber_closes : ℕ
  -- the subscriber has closed the channel of messages of its own accord
  pub is_cut_off : Bool

-- the goroutine of waitForHandlers that waits while it holds runningHandlersWgLock
pub data Waiter : Type 0 where
  unstarted unlocked locked finished : Waiter

pub data RunStage : Type 0 where
  not_running starting waiting cancelled returned failed : RunStage

-- the goroutine of watchAllHandlersStopped
pub data Watcher : Type 0 where
  unstarted unready for_handler for_stop checking closing gone : Watcher

pub record Shared : Type 0 where
  pub handlers_wg : ℕ
  -- the goroutines of handleMessage, and the counter of runningHandlersWg
  pub handling : ℕ
  pub running_handlers : ℕ
  pub closed : Bool
  pub closing_in_progress_ch : Chan
  pub closed_ch : Chan
  -- a call of Close holds the two locks
  pub is_locked : Bool
  -- the two goroutines of waitForHandlers; they outlive a call of Close that timed out
  pub handlers_waited : Bool
  pub running_waiter : Waiter
  -- what the call of Close that closed the router has returned
  pub close_result : Option (Option Err)
  pub run_stage : RunStage
  pub watcher : Watcher

pub record Life : Type 0 where
  pub shared : Shared
  pub handlers : List LiveHandler

-- newRouter
abbrev pub new_life : Life
new_life = record {
  shared = record {
    handlers_wg = 0;
    handling = 0;
    running_handlers = 0;
    closed = false;
    closing_in_progress_ch = Chan.open_chan;
    closed_ch = Chan.open_chan;
    is_locked = false;
    handlers_waited = false;
    running_waiter = Waiter.unstarted;
    close_result = none;
    run_stage = RunStage.not_running;
    watcher = Watcher.unstarted;
  };
  handlers = [];
}

-- wg.Done()
unfoldable pub wg_done : ℕ → Outcome ℕ
wg_done n =
    if n =ℕ 0
    then Outcome.panics (PanicValue.text "sync: negative WaitGroup counter")
    else Outcome.done (n - 1)

-- AddHandler: the handler, and a signal that is lost unless the watcher waits for it
abbrev pub new_live : LiveHandler
new_live = record {
  stage = Stage.added;
  guard = Guard.waiting;
  cancelled = false;
  subscriber_closes = 0;
  is_cut_off = false;
}

unfoldable pub signalled : Watcher → Watcher
signalled Watcher.for_handler = Watcher.for_stop
signalled w = w

unfoldable pub handler_added : Shared → Shared
unfolding signalled
handler_added s = record s { handlers_wg = s.handlers_wg + 1; watcher = signalled s.watcher }

unfoldable pub close_unless : Bool → Go Shared (Option (Option Err))
unfolding close_chan
close_unless true s = (Outcome.done (some none), s)
close_unless false s =
    resume (close_chan s.closing_in_progress_ch)
      (λ ch t. (
        Outcome.done none,
        record t {
          closed = true;
          closing_in_progress_ch = ch;
          is_locked = true;
          handlers_waited = false;
          running_waiter = Waiter.unlocked;
        },
      ))
      s

-- Close, up to where it waits for the handlers: what it returns, or that it waits now
unfoldable pub begin_close : Go Shared (Option (Option Err))
unfolding close_unless
begin_close s = close_unless s.closed s

-- the result of waitForHandlers as Close returns it
unfoldable pub close_error : Bool → Option Err
close_error true = some (Err.new "router close timeout")
close_error false = none

-- Close, from where waitForHandlers has returned
unfoldable pub end_close : Bool → Go Shared (Option Err)
unfolding close_chan close_error
end_close timedout s =
    resume (close_chan s.closed_ch)
      (λ ch t. (
        Outcome.done (close_error timedout),
        record t { closed_ch = ch; is_locked = false; close_result = some (close_error timedout) },
      ))
      s

-- Run: watchAllHandlersStopped, which starts the watcher by whether there are handlers
unfoldable pub watch : List LiveHandler → Shared → Shared
watch [] s = record s { run_stage = RunStage.starting; watcher = Watcher.unready }
watch _ s = record s { run_stage = RunStage.starting; watcher = Watcher.for_stop }

-- the watcher after IsClosed
unfoldable pub watcher_checked : Bool → Watcher
watcher_checked true = Watcher.gone
watcher_checked false = Watcher.closing

-- the subscriber closes the channel
abbrev pub cut_off : LiveHandler → LiveHandler
cut_off h = record h { is_cut_off = true }

-- Handler.Stop
abbrev pub cancel_handler : LiveHandler → LiveHandler
cancel_handler h = record h { cancelled = true }

unfoldable pub stop : Go LiveHandler (Unit {0})
stop h = elim h.stage [
  | Stage.added ↦ (Outcome.panics (PanicValue.text "handler is not started"), h)
  | _ ↦ (Outcome.done tt, cancel_handler h)
]
