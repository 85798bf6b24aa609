-- ===== src/Router/Lifecycle/Moves.antt =====
-- The goroutines of a handler, and what comes to it from outside, keep what holds of a router's life.
use watermill.Prelude.{◌+◌, Bool, List, ◌≡◌, ◌≢◌, subst, refl, ap, sym, arith, All}
use watermill.Router.Lifecycle.Defs.{Stage, LiveHandler, Shared, wg_done, stop}
use watermill.Router.Lifecycle.Steps.{Move, Touch, At}
use watermill.Router.Lifecycle.Invariant.{is_counted, counted, is_gone, HandlerInv, SharedInv}

-- What one goroutine of the handler `h` keeps.
pub record Moves (s : Shared) (h : LiveHandler) (s' : Shared) (h' : LiveHandler) : Type 0 where
  pub inv : SharedInv s'
  pub closed : s'.closed ≡ s.closed
  pub wg : s'.handlers_wg + is_counted h.stage ≡ s.handlers_wg + is_counted h'.stage
  pub handler : HandlerInv s'.closed h'

-- A step that changes only the handler.
Moves-handler :
    (s : Shared) (h h' : LiveHandler)
    → SharedInv s
    → is_counted h.stage ≡ is_counted h'.stage
    → HandlerInv s.closed h'
    → Moves s h s h'
Moves-handler s h h' inv e k = record {
  inv = inv;
  closed = refl;
  wg = ap (λ n. s.handlers_wg + n) e;
  handler = k;
}

-- A handler that goes on to a stage before its end.
HandlerInv-stage :
    (closed : Bool) (h : LiveHandler) (stage : Stage)
    → stage ≢ Stage.stopped
    → HandlerInv closed h
    → HandlerInv closed (record h { stage = stage })
HandlerInv-stage closed h stage ne k = record {
  once = k.once;
  router_closed = k.router_closed;
  subscriber_closed = k.subscriber_closed;
  left = λ e. absurd (ne e);
  ended = k.ended;
}

pub Move-Moves :
    (s : Shared) (h : LiveHandler) {s' : Shared} {h' : LiveHandler}
    → SharedInv s
    → HandlerInv s.closed h
    → Move s h s' h'
    → Moves s h s' h'
unfolding wg_done is_counted stop is_gone
Move-Moves s h inv k (Move.start free run e) =
    Moves-handler s h _ inv (ground arith) (HandlerInv-stage s.closed h _ (λ f. cc) k)
Move-Moves s h inv k (Move.receive e) =
    Moves-handler s h _ inv (ground arith) (HandlerInv-stage s.closed h _ (λ f. cc) k)
Move-Moves s h inv k (Move.handle e free) = record {
  inv = record {
    running = ap (λ n. n + 1) inv.running;
    closing = inv.closing;
    finished = inv.finished;
    locked = inv.locked;
    drained = inv.drained;
    waits = inv.waits;
    cancelled = inv.cancelled;
    returned = inv.returned;
  };
  closed = refl;
  wg = ground arith;
  handler = HandlerInv-stage s.closed h _ (λ f. cc) k;
}
Move-Moves s h inv k (Move.channel_closed e f) =
    Moves-handler s h _ inv (ground arith) (HandlerInv-stage s.closed h _ (λ g. cc) k)
Move-Moves s h inv k (Move.done_handler e f) = record {
  inv = record {
    running = inv.running;
    closing = inv.closing;
    finished = inv.finished;
    locked = inv.locked;
    drained = λ g w. ground (arith, inv.drained g w);
    waits = inv.waits;
    cancelled = inv.cancelled;
    returned = inv.returned;
  };
  closed = refl;
  wg = ground arith;
  handler = HandlerInv-stage s.closed h _ (λ f. cc) k;
}
Move-Moves s h inv k (Move.delete free e) =
    Moves-handler s h _ inv (ground arith) (HandlerInv-stage s.closed h _ (λ f. cc) k)
Move-Moves s h inv k (Move.close_stopped e) = Moves-handler s h _ inv (ground arith) (record {
  once = k.once;
  router_closed = k.router_closed;
  subscriber_closed = k.subscriber_closed;
  left = λ f. refl;
  ended = λ f. refl;
})
Move-Moves s h inv k (Move.router_closes ne e c) = Moves-handler s h _ inv refl (record {
  once = ground (arith, k.once);
  router_closed = λ f. ground (arith, inv.closing);
  subscriber_closed = k.subscriber_closed;
  left = k.left;
  ended = λ f. cc;
})
Move-Moves s h inv k (Move.subscriber_closed e) = Moves-handler s h _ inv refl (record {
  once = ground (arith, k.once);
  router_closed = λ f. cc;
  subscriber_closed = λ f. k.router_closed e;
  left = λ f. refl;
  ended = λ f. refl;
})
Move-Moves s h inv k (Move.context_done ne e c) = Moves-handler s h _ inv refl (record {
  once = ground (arith, k.once);
  router_closed = λ f. cc;
  subscriber_closed = k.subscriber_closed;
  left = k.left;
  ended = λ f. c;
})

-- What comes from outside to a handler keeps what holds of it, and leaves it where it is.
Touch-HandlerInv :
    (closed : Bool) (h : LiveHandler) {h' : LiveHandler}
    → HandlerInv closed h
    → Touch h h'
    → HandlerInv closed h' × (is_counted h'.stage ≡ is_counted h.stage)
unfolding stop is_gone is_counted
Touch-HandlerInv closed h k (Touch.stop_called {h'} e) = (
  record {
    once = ground (arith, k.once);
    router_closed = ground (arith, k.router_closed);
    subscriber_closed = ground (arith, k.subscriber_closed);
    left = ground (arith, k.left);
    ended = ground (arith, k.ended);
  },
  ground arith,
)
Touch-HandlerInv closed h k (Touch.source_closes ne) = (
  record {
    once = k.once;
    router_closed = k.router_closed;
    subscriber_closed = k.subscriber_closed;
    left = k.left;
    ended = k.ended;
  },
  refl,
)

pub At-HandlerInv :
    (closed : Bool) {hs hs' : List LiveHandler}
    → At Touch hs hs'
    → All (HandlerInv closed) hs
    → All (HandlerInv closed) hs' × (counted hs' ≡ counted hs)
unfolding counted
At-HandlerInv closed (At.here {h} t) (k, ks) =
    let (k', e) = Touch-HandlerInv closed h k t in ((k', ks), omega (arith, e))
At-HandlerInv closed (At.there t) (k, ks) =
    let (ks', e) = At-HandlerInv closed t ks in ((k, ks'), omega (arith, e))

-- A move of one handler of the list.
pub record ListMoves (s : Shared) (hs : List LiveHandler) (s' : Shared) (hs' : List LiveHandler)
    : Type 0 where
  pub inv : SharedInv s'
  pub closed : s'.closed ≡ s.closed
  pub wg : s'.handlers_wg + counted hs ≡ s.handlers_wg + counted hs'
  pub handlers : All (HandlerInv s'.closed) hs'

pub At-ListMoves :
    (s s' : Shared) {hs hs' : List LiveHandler}
    → SharedInv s
    → At (λ h h'. Move s h s' h') hs hs'
    → All (HandlerInv s.closed) hs
    → ListMoves s hs s' hs'
unfolding counted
At-ListMoves s s' inv (At.here {h} {h'} {hs} m) (k, ks) =
    let moves = Move-Moves s h inv k m in
    record {
      inv = moves.inv;
      closed = moves.closed;
      wg = omega (arith, moves.wg);
      handlers = (moves.handler, subst (λ c. All (HandlerInv c) hs) (sym moves.closed) ks);
    }
At-ListMoves s s' inv (At.there {h} {hs} {hs'} m) (k, ks) =
    let moves = At-ListMoves s s' inv m ks in
    record {
      inv = moves.inv;
      closed = moves.closed;
      wg = omega (arith, moves.wg);
      handlers = (subst (λ c. HandlerInv c h) (sym moves.closed) k, moves.handlers);
    }
