-- ===== src/Router/Lifecycle/Preserved.antt =====
-- Every step keeps what holds of a router's life.
use watermill.Prelude.{
  ◌+◌, Bool, true, List, [], ◌∷◌, ◌++◌, inl, ◌≡◌, false≢true, refl, sym, ◌∙◌, arith, All, All-mono,
}
use watermill.Go.{close_chan}
use watermill.Router.Lifecycle.Defs.{
  LiveHandler, Shared, Life, new_live, handler_added, watch, begin_close, close_unless,
}
use watermill.Router.Lifecycle.Steps.{Goes, Step, Reach, now, later, Runs}
use watermill.Router.Lifecycle.Invariant.{
  is_counted, counted, is_gone, HandlerInv, SharedInv, Inv, Carries, Carries-set, Common-Carries,
  begin_close-SharedInv,
}
use watermill.Router.Lifecycle.Moves.{At-ListMoves, At-HandlerInv}

HandlerInv-closes :
    (b c : Bool) → (b ≡ true → c ≡ true) → (h : LiveHandler) → HandlerInv b h → HandlerInv c h
HandlerInv-closes b c f h k = record {
  once = k.once;
  router_closed = λ e. f (k.router_closed e);
  subscriber_closed = λ e. f (k.subscriber_closed e);
  left = k.left;
  ended = k.ended;
}

counted-append : (hs gs : List LiveHandler) → counted (hs ++ gs) ≡ counted hs + counted gs
unfolding counted
counted-append [] gs = omega arith
counted-append (h ∷ hs) gs = omega (arith, counted-append hs gs)

All-append :
    (P : LiveHandler → Type 0) (hs gs : List LiveHandler) → All P hs → All P gs → All P (hs ++ gs)
All-append P [] gs f g = g
All-append P (h ∷ hs) gs (k, f) g = (k, All-append P hs gs f g)

watch-Carries : (hs : List LiveHandler) (s : Shared) → SharedInv s → Carries s (watch hs s)
unfolding watch
watch-Carries [] s inv =
    Carries-set _ _ inv refl inv.running refl refl refl refl inl (λ u. u) (λ f. cc) (λ f. cc)
watch-Carries (h ∷ hs) s inv =
    Carries-set _ _ inv refl inv.running refl refl refl refl inl (λ u. u) (λ f. cc) (λ f. cc)

-- The handlers of a router whose shared state a step has carried on.
carried : (l : Life) (s : Shared) → Inv l → Carries l.shared s → Inv (record l { shared = s })
carried l s inv carries = record {
  wg = omega (arith, carries.wg, inv.wg);
  shared = carries.inv;
  handlers =
      All-mono _ _ l.handlers (HandlerInv-closes l.shared.closed s.closed carries.stays)
        inv.handlers;
}

Goes-Inv : (l m : Life) → Inv l → Goes l m → Inv m
Goes-Inv l m inv (Goes.move {s} {hs} at) =
    let moves = At-ListMoves l.shared s inv.shared at inv.handlers in
    record { wg = omega (arith, moves.wg, inv.wg); shared = moves.inv; handlers = moves.handlers }
Goes-Inv l m inv (Goes.common {s} c) = carried l s inv (Common-Carries l.shared s inv.shared c)

pub Step-Inv : (l m : Life) → Inv l → Step l m → Inv m
unfolding is_counted counted handler_added is_gone begin_close close_unless close_chan
Step-Inv l m inv (Step.goes g) = Goes-Inv l m inv g
Step-Inv l m inv (Step.touched at) =
    let (ks, e) = At-HandlerInv l.shared.closed at inv.handlers in
    record { wg = omega (arith, e, inv.wg); shared = inv.shared; handlers = ks }
Step-Inv l m inv (Step.close_called {s} free e) = carried l s inv (record {
  inv = begin_close-SharedInv l.shared s free e inv.shared;
  wg = ground (arith, inv.shared.closing);
  stays = ground (arith, inv.shared.closing);
})
Step-Inv l m inv (Step.handler_registered free) = record {
  wg = omega (arith, counted-append l.handlers (new_live ∷ []), inv.wg);
  shared = record {
    running = inv.shared.running;
    closing = inv.shared.closing;
    finished = inv.shared.finished;
    locked = inv.shared.locked;
    drained = λ held w. absurd (false≢true (sym free ∙ held));
    waits = inv.shared.waits;
    cancelled = inv.shared.cancelled;
    returned = inv.shared.returned;
  };
  handlers = All-append _ l.handlers _ inv.handlers (
    record {
      once = ground arith;
      router_closed = λ e. cc;
      subscriber_closed = λ e. absurd (e refl);
      left = λ e. cc;
      ended = λ e. cc;
    },
    tt,
  );
}
Step-Inv l m inv (Step.run_called e) =
    carried l (watch l.handlers l.shared) inv (watch-Carries l.handlers l.shared inv.shared)

pub Reach-Inv : {l m : Life} → Inv l → Reach l m → Inv m
Reach-Inv inv now = inv
Reach-Inv inv (later {m} {n} r st) = Step-Inv m n (Reach-Inv inv r) st

pub Runs-Inv : {l m : Life} → Inv l → Runs l m → Inv m
Runs-Inv inv Runs.halt = inv
Runs-Inv inv (Runs.more {m} {n} r g) = Goes-Inv m n (Runs-Inv inv r) g
