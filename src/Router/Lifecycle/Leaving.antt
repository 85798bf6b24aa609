-- ===== src/Router/Lifecycle/Leaving.antt =====
-- The handlers of a router can leave their loops.
use watermill.Prelude.{◌+◌, ◌-◌, ◌≤◌, true, List, [], ◌∷◌, ◌≡◌, ◌≢◌, refl, sym, ap, ◌∙◌, arith, All}
use watermill.Go.{Chan}
use watermill.Router.Lifecycle.Defs.{Stage, Guard, LiveHandler, Waiter, Shared, Life, wg_done}
use watermill.Router.Lifecycle.Steps.{Ends, Move, At, Goes, Runs}
use watermill.Router.Lifecycle.Invariant.{is_counted, counted, HandlerInv}

abbrev pub life : Shared → List LiveHandler → Life
life s hs = record { shared = s; handlers = hs }

pub joined_runs : {l m n : Life} → Runs l m → Runs m n → Runs l n
joined_runs r Runs.halt = r
joined_runs r (Runs.more q g) = Runs.more (joined_runs r q) g

-- Moves of handlers only, one after another.
pub data Moving (s : Shared) (hs : List LiveHandler) : Shared → List LiveHandler → Type 0 where
  stay : Moving s hs s hs
  go :
      {t u : Shared} {gs fs : List LiveHandler}
      → Moving s hs t gs
      → At (λ h h'. Move t h u h') gs fs
      → Moving s hs u fs

pub Moving-Runs :
    {s : Shared} {hs : List LiveHandler} {t : Shared} {gs : List LiveHandler}
    → Moving s hs t gs
    → Runs (life s hs) (life t gs)
Moving-Runs Moving.stay = Runs.halt
Moving-Runs (Moving.go m at) = Runs.more (Moving-Runs m) (Goes.move at)

lifted :
    {h : LiveHandler} {s : Shared} {hs : List LiveHandler} {t : Shared} {gs : List LiveHandler}
    → Moving s hs t gs
    → Moving s (h ∷ hs) t (h ∷ gs)
lifted Moving.stay = Moving.stay
lifted (Moving.go m at) = Moving.go (lifted m) (At.there at)

joined :
    {s t : Shared} {hs gs : List LiveHandler} {u : Shared} {fs : List LiveHandler}
    → Moving s hs t gs
    → Moving t gs u fs
    → Moving s hs u fs
joined m Moving.stay = m
joined m (Moving.go n at) = Moving.go (joined m n) at

-- The handlers `hs` can leave their loops while the call of Close waits.
pub record CanLeave (s : Shared) (hs : List LiveHandler) : Type 0 where
  pub after : Shared
  pub handlers : List LiveHandler
  pub path : Moving s hs after handlers
  pub left : counted handlers ≡ 0
  pub wg : after.handlers_wg + counted hs ≡ s.handlers_wg
  pub held : after.is_locked ≡ s.is_locked
  pub waiter : after.running_waiter ≡ s.running_waiter
  pub closing : after.closing_in_progress_ch ≡ s.closing_in_progress_ch

-- the same for the first of them, when the others have left
Leaves : Shared → LiveHandler → List LiveHandler → Type 0
Leaves s h hs = counted hs ≡ 0 → is_counted h.stage ≤ s.handlers_wg → CanLeave s (h ∷ hs)

leave_leaving :
    (s : Shared) (h : LiveHandler) (hs : List LiveHandler) → h.stage ≡ Stage.leaving → Leaves s h hs
unfolding Leaves wg_done counted is_counted
leave_leaving s h hs e others enough = record {
  after = record s { handlers_wg = s.handlers_wg - 1 };
  handlers = record h { stage = Stage.stopping } ∷ hs;
  path = Moving.go Moving.stay (At.here (Move.done_handler e (ground arith)));
  left = omega (arith, others);
  wg = ground arith;
  held = refl;
  waiter = refl;
  closing = refl;
}

-- One move of the first handler before it leaves.
first_move :
    (s s' : Shared) (h h' : LiveHandler) (hs : List LiveHandler)
    → Move s h s' h'
    → is_counted h'.stage ≡ is_counted h.stage
    → s'.handlers_wg ≡ s.handlers_wg
    → s'.is_locked ≡ s.is_locked
    → s'.running_waiter ≡ s.running_waiter
    → s'.closing_in_progress_ch ≡ s.closing_in_progress_ch
    → Leaves s' h' hs
    → Leaves s h hs
unfolding Leaves counted
first_move s s' h h' hs m e wg held waiter closing leaves others enough =
    let next = leaves others (omega (arith, e, wg)) in
    record {
      after = next.after;
      handlers = next.handlers;
      path = joined (Moving.go Moving.stay (At.here m)) next.path;
      left = next.left;
      wg = omega (arith, next.wg, e, wg);
      held = next.held ∙ held;
      waiter = next.waiter ∙ waiter;
      closing = next.closing ∙ closing;
    }

leave_ended :
    (s : Shared) (h : LiveHandler) (hs : List LiveHandler)
    → h.stage ≡ Stage.reading
    → h.cancelled ≡ true
    → Leaves s h hs
unfolding is_counted
leave_ended s h hs e c =
    first_move s s h (record h { stage = Stage.leaving }) hs
      (Move.channel_closed e (Ends.context_ended c)) (ground arith) refl refl refl refl
      (leave_leaving s (record h { stage = Stage.leaving }) hs refl)

-- handleClose closes the subscriber, and the channel of its messages is closed with that
leave_closing :
    (s : Shared) (h : LiveHandler) (hs : List LiveHandler)
    → h.stage ≡ Stage.reading
    → h.guard ≡ Guard.closing_subscriber
    → Leaves s h hs
leave_closing s h hs e g =
    first_move s s h _ hs (Move.subscriber_closed g) refl refl refl refl refl
      (leave_ended s _ hs e refl)

leave_guarded :
    (g : Guard) (s : Shared) (h : LiveHandler) (hs : List LiveHandler)
    → h.guard ≡ g
    → s.closing_in_progress_ch ≡ Chan.closed_chan
    → HandlerInv true h
    → h.stage ≡ Stage.reading
    → Leaves s h hs
leave_guarded Guard.waiting s h hs g c k e =
    first_move s s h _ hs (Move.router_closes (λ f. cc) g c) refl refl refl refl refl
      (leave_closing s (record h { guard = Guard.closing_subscriber }) hs e refl)
leave_guarded Guard.closing_subscriber s h hs g c k e = leave_closing s h hs e g
leave_guarded Guard.gone s h hs g c k e = leave_ended s h hs e (k.ended g)

leave_received :
    (s : Shared) (h : LiveHandler) (hs : List LiveHandler)
    → s.running_waiter ≢ Waiter.locked
    → s.closing_in_progress_ch ≡ Chan.closed_chan
    → HandlerInv true h
    → h.stage ≡ Stage.received
    → Leaves s h hs
unfolding is_counted
leave_received s h hs free c k e =
    let s' = record s { running_handlers = s.running_handlers + 1; handling = s.handling + 1 } in
    let h' = record h { stage = Stage.reading } in
    first_move s s' h h' hs (Move.handle e free) (ground arith) refl refl refl refl (
      leave_guarded h.guard s' h' hs refl c
        (record {
          once = k.once;
          router_closed = k.router_closed;
          subscriber_closed = k.subscriber_closed;
          left = λ f. cc;
          ended = k.ended;
        })
        refl)

leave_left :
    (s : Shared) (h : LiveHandler) (hs : List LiveHandler) → is_counted h.stage ≡ 0 → Leaves s h hs
unfolding Leaves counted
leave_left s h hs e others enough = record {
  after = s;
  handlers = h ∷ hs;
  path = Moving.stay;
  left = omega (arith, e, others);
  wg = omega (arith, e, others);
  held = refl;
  waiter = refl;
  closing = refl;
}

leave_at :
    (s : Shared) (h : LiveHandler) (hs : List LiveHandler) (stage : Stage)
    → s.running_waiter ≢ Waiter.locked
    → s.closing_in_progress_ch ≡ Chan.closed_chan
    → HandlerInv true h
    → stage ≢ Stage.added
    → h.stage ≡ stage
    → Leaves s h hs
unfolding is_counted
leave_at s h hs Stage.added free c k ne e = absurd (ne refl)
leave_at s h hs Stage.reading free c k ne e = leave_guarded h.guard s h hs refl c k e
leave_at s h hs Stage.received free c k ne e = leave_received s h hs free c k e
leave_at s h hs Stage.leaving free c k ne e = leave_leaving s h hs e
leave_at s h hs Stage.stopping free c k ne e = leave_left s h hs (ap (λ x. is_counted x) e)
leave_at s h hs Stage.deleted free c k ne e = leave_left s h hs (ap (λ x. is_counted x) e)
leave_at s h hs Stage.stopped free c k ne e = leave_left s h hs (ap (λ x. is_counted x) e)

pub leave_each :
    (s : Shared) (hs : List LiveHandler)
    → s.running_waiter ≢ Waiter.locked
    → s.closing_in_progress_ch ≡ Chan.closed_chan
    → All (HandlerInv true) hs
    → All (λ h. h.stage ≢ Stage.added) hs
    → counted hs ≤ s.handlers_wg
    → CanLeave s hs
unfolding counted Leaves
leave_each s [] free c ks started enough = record {
  after = s;
  handlers = [];
  path = Moving.stay;
  left = refl;
  wg = omega arith;
  held = refl;
  waiter = refl;
  closing = refl;
}
leave_each s (h ∷ hs) free c (k, ks) (ne, started) enough =
    let rest = leave_each s hs free c ks started (omega arith) in
    let first =
      leave_at rest.after h rest.handlers h.stage (λ e. free (sym rest.waiter ∙ e))
        (rest.closing ∙ c) k ne refl rest.left (omega (arith, rest.wg)) in
    record {
      after = first.after;
      handlers = first.handlers;
      path = joined (lifted rest.path) first.path;
      left = first.left;
      wg = omega (arith, first.wg, rest.wg, rest.left);
      held = first.held ∙ rest.held;
      waiter = first.waiter ∙ rest.waiter;
      closing = first.closing ∙ rest.closing;
    }
