-- ===== src/Router/Lifecycle/Invariant.antt =====
-- What holds in every state of a router's life.
use watermill.Prelude.{
  ℕ, ◌+◌, Bool, true, false, ◌&&◌, not, Option, List, [], ◌∷◌, ◌⊎◌, inl, inr, ◌≡◌, ◌≢◌, ◌≤◌, refl,
  arith, All,
}
use watermill.Go.{Err, Outcome, Chan, close_chan}
use watermill.Router.Lifecycle.Defs.{
  Stage, Guard, LiveHandler, Waiter, RunStage, Watcher, Shared, Life, new_life, wg_done,
  begin_close, close_unless, end_close,
}
use watermill.Router.Lifecycle.Steps.{WaitStep, RunStep, WatchStep, Common}

-- A handler whose goroutine has not called handlersWg.Done.
unfoldable pub is_counted : Stage → ℕ
is_counted Stage.stopping = 0
is_counted Stage.deleted = 0
is_counted Stage.stopped = 0
is_counted _ = 1

unfoldable pub counted : List LiveHandler → ℕ
unfolding is_counted
counted [] = 0
counted (h ∷ hs) = is_counted h.stage + counted hs

abbrev pub chan_if : Bool → Chan
chan_if true = Chan.closed_chan
chan_if false = Chan.open_chan

unfoldable pub is_gone : Guard → ℕ
is_gone Guard.gone = 1
is_gone _ = 0

-- What holds of one handler in a router that is closing or not.
pub record HandlerInv (closed : Bool) (h : LiveHandler) : Type 0 where
  -- the router closes a subscriber once, and only if it closes itself
  pub once : h.subscriber_closes ≤ is_gone h.guard
  pub router_closed : h.guard ≡ Guard.closing_subscriber → closed ≡ true
  pub subscriber_closed : h.subscriber_closes ≢ 0 → closed ≡ true
  -- nothing keeps the context of a handler that has stopped
  pub left : h.stage ≡ Stage.stopped → h.cancelled ≡ true
  -- handleClose ends with the context
  pub ended : h.guard ≡ Guard.gone → h.cancelled ≡ true

pub record SharedInv (s : Shared) : Type 0 where
  pub running : s.running_handlers ≡ s.handling
  pub closing : s.closing_in_progress_ch ≡ chan_if s.closed
  pub finished : s.closed_ch ≡ chan_if (s.closed && not s.is_locked)
  pub locked : s.is_locked ≡ true → s.closed ≡ true
  pub drained : s.is_locked ≡ true → s.handlers_waited ≡ true → s.handlers_wg ≡ 0
  pub waits : s.closed ≡ true → s.running_waiter ≢ Waiter.unstarted
  pub cancelled : s.run_stage ≡ RunStage.cancelled → s.closed ≡ true
  pub returned : s.run_stage ≡ RunStage.returned → s.closed_ch ≡ Chan.closed_chan

pub record Inv (l : Life) : Type 0 where
  pub wg : l.shared.handlers_wg ≡ counted l.handlers
  pub shared : SharedInv l.shared
  pub handlers : All (HandlerInv l.shared.closed) l.handlers

pub Inv-new : Inv new_life
unfolding counted
Inv-new = record {
  wg = refl;
  shared = record {
    running = refl;
    closing = refl;
    finished = refl;
    locked = λ e. cc;
    drained = λ e f. refl;
    waits = λ e. cc;
    cancelled = λ e. cc;
    returned = λ e. cc;
  };
  handlers = tt;
}

pub begin_close-SharedInv :
    {r : Option (Option Err)} (s s' : Shared)
    → s.is_locked ≡ false
    → begin_close s ≡ (Outcome.done r, s')
    → SharedInv s
    → SharedInv s'
unfolding begin_close close_unless close_chan
begin_close-SharedInv s s' free e inv = record {
  running = ground (arith, inv.running);
  closing = ground (arith, inv.closing);
  finished = ground (arith, inv.closing, inv.finished);
  locked = ground (arith, inv.closing, inv.locked);
  drained = ground (arith, inv.closing, inv.drained);
  waits = ground (arith, inv.closing, inv.waits);
  cancelled = ground (arith, inv.closing, inv.cancelled);
  returned = ground (arith, inv.closing, inv.returned, inv.finished);
}

end_close-SharedInv :
    {r : Option Err} (timedout : Bool) (s s' : Shared)
    → s.is_locked ≡ true
    → end_close timedout s ≡ (Outcome.done r, s')
    → SharedInv s
    → SharedInv s'
unfolding end_close close_chan
end_close-SharedInv timedout s s' held e inv = record {
  running = ground (arith, inv.running, inv.finished, inv.locked);
  closing = ground (arith, inv.closing, inv.finished, inv.locked);
  finished = ground (arith, inv.locked, inv.finished);
  locked = ground (arith, inv.locked, inv.finished);
  drained = ground (arith, inv.drained, inv.finished, inv.locked);
  waits = ground (arith, inv.waits, inv.finished, inv.locked);
  cancelled = ground (arith, inv.cancelled, inv.finished, inv.locked);
  returned = ground (arith, inv.returned, inv.finished, inv.locked);
}

-- What the goroutines that touch no handler keep.
pub record Carries (s s' : Shared) : Type 0 where
  pub inv : SharedInv s'
  pub wg : s'.handlers_wg ≡ s.handlers_wg
  pub stays : s.closed ≡ true → s'.closed ≡ true

pub Carries-set :
    (s s' : Shared)
    → SharedInv s
    → s'.handlers_wg ≡ s.handlers_wg
    → s'.running_handlers ≡ s'.handling
    → s'.closed ≡ s.closed
    → s'.closing_in_progress_ch ≡ s.closing_in_progress_ch
    → s'.closed_ch ≡ s.closed_ch
    → s'.is_locked ≡ s.is_locked
    → (s'.handlers_waited ≡ true → s.handlers_waited ≡ true ⊎ (s.handlers_wg ≡ 0))
    → (s.running_waiter ≢ Waiter.unstarted → s'.running_waiter ≢ Waiter.unstarted)
    → (s'.run_stage ≡ RunStage.cancelled → s.closed ≡ true)
    → (s'.run_stage ≡ RunStage.returned → s.closed_ch ≡ Chan.closed_chan)
    → Carries s s'
Carries-set s s' inv wg run c cp cc' lk hw rw' rc rr = record {
  inv = record {
    running = run;
    closing = ground (arith, inv.closing);
    finished = ground (arith, inv.finished);
    locked = ground (arith, inv.locked);
    drained = ground (arith, inv.drained);
    waits = ground (arith, inv.waits);
    cancelled = ground arith;
    returned = ground arith;
  };
  wg = wg;
  stays = ground arith;
}

pub Common-Carries : (s s' : Shared) → SharedInv s → Common s s' → Carries s s'
unfolding begin_close close_unless end_close close_chan wg_done
Common-Carries s s' inv (Common.done_message h e) =
    Carries-set _ _ inv refl (ground (arith, inv.running)) refl refl refl refl inl (λ u. u)
      inv.cancelled inv.returned
Common-Carries s s' inv (Common.waits (WaitStep.handlers_done c e)) =
    Carries-set _ _ inv refl inv.running refl refl refl refl (λ _. inr e) (λ u. u) inv.cancelled
      inv.returned
Common-Carries s s' inv (Common.waits (WaitStep.lock_running e)) =
    Carries-set _ _ inv refl inv.running refl refl refl refl inl (λ _ f. cc) inv.cancelled
      inv.returned
Common-Carries s s' inv (Common.waits (WaitStep.running_done e z)) =
    Carries-set _ _ inv refl inv.running refl refl refl refl inl (λ _ f. cc) inv.cancelled
      inv.returned
Common-Carries s s' inv (Common.waits (WaitStep.waited held f g e)) = record {
  inv = end_close-SharedInv false s s' held e inv;
  wg = ground (arith, inv.finished, inv.locked);
  stays = ground (arith, inv.finished, inv.locked);
}
Common-Carries s s' inv (Common.waits (WaitStep.timed_out held e)) = record {
  inv = end_close-SharedInv true s s' held e inv;
  wg = ground (arith, inv.finished, inv.locked);
  stays = ground (arith, inv.finished, inv.locked);
}
Common-Carries s s' inv (Common.runs (RunStep.run_failed e)) =
    Carries-set _ _ inv refl inv.running refl refl refl refl inl (λ u. u) (λ f. cc) (λ f. cc)
Common-Carries s s' inv (Common.runs (RunStep.run_waits e)) =
    Carries-set _ _ inv refl inv.running refl refl refl refl inl (λ u. u) (λ f. cc) (λ f. cc)
Common-Carries s s' inv (Common.runs (RunStep.run_cancels e c)) =
    Carries-set _ _ inv refl inv.running refl refl refl refl inl (λ u. u)
      (λ f. ground (arith, inv.closing)) (λ f. cc)
Common-Carries s s' inv (Common.runs (RunStep.run_returns e c)) =
    Carries-set _ _ inv refl inv.running refl refl refl refl inl (λ u. u) (λ f. cc) (λ f. c)
Common-Carries s s' inv (Common.watches (WatchStep.watcher_ready e)) =
    Carries-set _ _ inv refl inv.running refl refl refl refl inl (λ u. u) inv.cancelled inv.returned
Common-Carries s s' inv (Common.watches (WatchStep.watcher_leaves e c)) =
    Carries-set _ _ inv refl inv.running refl refl refl refl inl (λ u. u) inv.cancelled inv.returned
Common-Carries s s' inv (Common.watches (WatchStep.all_stopped e c)) =
    Carries-set _ _ inv refl inv.running refl refl refl refl inl (λ u. u) inv.cancelled inv.returned
Common-Carries s s' inv (Common.watches (WatchStep.watcher_checks e c)) =
    Carries-set _ _ inv refl inv.running refl refl refl refl inl (λ u. u) inv.cancelled inv.returned
Common-Carries s s' inv (Common.watches (WatchStep.watcher_closes w free e)) = record {
  inv =
      begin_close-SharedInv (record s { watcher = Watcher.gone }) s' free e
        (Carries-set s (record s { watcher = Watcher.gone }) inv refl inv.running refl refl refl
          refl inl (λ u. u) inv.cancelled inv.returned).inv;
  wg = ground (arith, inv.closing);
  stays = ground (arith, inv.closing);
}
