-- ===== src/Router/HandlerStart.antt =====
-- What the loop body of RunHandlers does to the handler of one name.
use watermill.Prelude.{
  String, Bool, true, false, Bool-cases, inl, inr, ◌==◌, eq_iff, Option, none, some, ◌≡◌, ◌≢◌, refl,
  sym, subst, ◌∙◌, arith, lookup, lookup-insert,
}
use watermill.Go.{Err, Outcome, Result, Go, Context, pure, gets, resume, ◌>>=◌, ◌>>◌}
use watermill.Runtime.{M, with_cancel, cancel}
use watermill.PubSub.{Publisher, Stream, Subscriber}
use watermill.Router.Defs.{Router, Handler}
use watermill.Router.Decorating.{decorate_handler_publisher, decorate_handler_subscriber}
use watermill.Router.Running.{
  RunState, on_world, put_handler, subscribed, subscribe_handler, decorate_subscriber, start_unless,
  run_found, run_handler,
}

-- A handler of that name, if there is one, has started.
abbrev pub IsStarted : {S : Type 0} → Option (Handler S) → Type 0
IsStarted none = Unit {0}
IsStarted (some h) = h.started ≡ true

abbrev pub StartedIn : {S : Type 0} → RunState S → String → Type 0
StartedIn s name = IsStarted (lookup name s.router.handlers)

-- Each handler stands under its name.
abbrev pub IsNamed : {S : Type 0} → Router S → Type 0
IsNamed {S} r = (k : String) (h : Handler S) → lookup k r.handlers ≡ some h → h.name ≡ k

abbrev pub NamedAt : {S : Type 0} → String → RunState S → Type 0
NamedAt {S} name s = (h : Handler S) → lookup name s.router.handlers ≡ some h → h.name ≡ name

-- What the part of the loop body of RunHandlers does that stands for the handler `name`: it writes
-- to no other handler, and without an error it ends with the handler started.
pub record Starts {S : Type 0} (name : String) (m : Go (RunState S) (Option Err)) : Type 0 where
  others :
      (s : RunState S) (k : String)
      → name ≢ k
      → lookup k (m s).1.router.handlers ≡ lookup k s.router.handlers
  running : (s : RunState S) → (m s).1.router.is_running ≡ s.router.is_running
  named : (s : RunState S) → NamedAt name s → NamedAt name (m s).1
  starts : (s : RunState S) → (m s).0 ≡ Outcome.done none → StartedIn (m s).1 name

module _ {S : Type 0} (name : String) where
  Starts-fail : (e : Err) → Starts {S = S} name (pure (some e))
  Starts-fail e = record {
    others = λ s k ne. refl;
    running = λ s. refl;
    named = λ s n. n;
    starts = λ s h. cc;
  }

  Starts-resume :
      {A : Type 0} (out : Outcome A) (f : A → Go (RunState S) (Option Err))
      → ((a : A) → Starts name (f a))
      → Starts name (resume out f)
  Starts-resume (Outcome.done a) f k = record {
    others = (k a).others;
    running = (k a).running;
    named = (k a).named;
    starts = (k a).starts;
  }
  Starts-resume (Outcome.panics p) f k = record {
    others = λ s j ne. refl;
    running = λ s. refl;
    named = λ s n. n;
    starts = λ s h. cc;
  }

  Starts-on_world :
      {A : Type 0} (m : M S A) (f : A → Go (RunState S) (Option Err))
      → ((a : A) → Starts name (f a))
      → Starts name (on_world m >>= f)
  Starts-on_world m f k = record {
    others = λ s j ne.
        (Starts-resume (m s.world).0 f k).others (record s { world = (m s.world).1 }) j ne;
    running = λ s. (Starts-resume (m s.world).0 f k).running (record s { world = (m s.world).1 });
    named = λ s n. (Starts-resume (m s.world).0 f k).named (record s { world = (m s.world).1 }) n;
    starts = λ s h. (Starts-resume (m s.world).0 f k).starts (record s { world = (m s.world).1 }) h;
  }

  Starts-put :
      (h : Handler S) (f : Go (RunState S) (Option Err))
      → h.name ≡ name
      → Starts name f
      → Starts name (put_handler h >> f)
  unfolding put_handler
  Starts-put h f e k = record {
    others = λ s j ne. ground (
      arith,
      lookup-insert h.name j h s.router.handlers,
      eq_iff h.name j,
      k.others (put_handler h s).1 j ne,
    );
    running = λ s. k.running (put_handler h s).1;
    named = λ s n.
        k.named (put_handler h s).1
          λ g. ground (arith, lookup-insert h.name name h s.router.handlers, eq_iff h.name name);
    starts = λ s p. k.starts (put_handler h s).1 p;
  }

  Starts-subscribed :
      (h : Handler S) (ctx : Context) (out : Result (Stream S))
      → h.name ≡ name
      → Starts name (subscribed h ctx out)
  unfolding subscribed
  Starts-subscribed h ctx (Result.fail e) n =
      Starts-on_world (cancel ctx) (λ _. pure (some (Err.wrap e "cannot subscribe topic")))
        (λ _. Starts-fail _)
  Starts-subscribed h ctx (Result.ok messages) n = record {
    others = λ s j ne. ground (
      arith,
      lookup-insert name j
          (record h { messages_ch = some messages; started = true; stop_ctx = some ctx })
          s.router.handlers,
      eq_iff name j,
    );
    running = λ s. refl;
    named = λ s m g. ground (
      arith,
      lookup-insert name name
          (record h { messages_ch = some messages; started = true; stop_ctx = some ctx })
          s.router.handlers,
      eq_iff name name,
    );
    starts = λ s p. ground (
      arith,
      lookup-insert name name
          (record h { messages_ch = some messages; started = true; stop_ctx = some ctx })
          s.router.handlers,
      eq_iff name name,
    );
  }

  Starts-subscribe_handler :
      (ctx : Context) (h : Handler S) (out : Result (Subscriber S))
      → h.name ≡ name
      → Starts name (subscribe_handler ctx h out)
  unfolding subscribe_handler
  Starts-subscribe_handler ctx h (Result.fail e) n = Starts-fail _
  Starts-subscribe_handler ctx h (Result.ok sub) n =
      Starts-put (record h { subscriber = sub }) _ n
        (Starts-on_world (with_cancel ctx) _ λ ctx'.
          Starts-on_world (sub.subscribe ctx' h.subscribe_topic) _
            λ messages. Starts-subscribed (record h { subscriber = sub }) ctx' messages n)

  Starts-gets :
      (f : Router S → Go (RunState S) (Option Err))
      → ((r : Router S) → Starts name (f r))
      → Starts name (gets (λ s. s.router) >>= f)
  Starts-gets f k = record {
    others = λ s. (k s.router).others s;
    running = λ s. (k s.router).running s;
    named = λ s. (k s.router).named s;
    starts = λ s. (k s.router).starts s;
  }

  Starts-decorate_subscriber :
      (ctx : Context) (h : Handler S) (out : Result (Option (Publisher S)))
      → h.name ≡ name
      → Starts name (decorate_subscriber ctx h out)
  unfolding decorate_subscriber
  Starts-decorate_subscriber ctx h (Result.fail e) n = Starts-fail _
  Starts-decorate_subscriber ctx h (Result.ok p) n =
      Starts-put (record h { publisher = p }) _ n
        (Starts-gets _ λ r.
          Starts-on_world (decorate_handler_subscriber r (record h { publisher = p })) _
            λ sub. Starts-subscribe_handler ctx (record h { publisher = p }) sub n)

  Starts-unstarted :
      (ctx : Context) (h : Handler S) → h.name ≡ name → Starts name (start_unless false ctx h)
  unfolding start_unless
  Starts-unstarted ctx h n = Starts-gets _ λ r.
      Starts-on_world (decorate_handler_publisher r h) _ λ p. Starts-decorate_subscriber ctx h p n

-- What a run of `m` from the state `s` has done for the handler `name`.
pub record StartsAt {S : Type 0} (name : String) (s : RunState S) (m : Go (RunState S) (Option Err))
    : Type 0 where
  pub others :
      (k : String) → name ≢ k → lookup k (m s).1.router.handlers ≡ lookup k s.router.handlers
  pub running : (m s).1.router.is_running ≡ s.router.is_running
  pub named : NamedAt name s → NamedAt name (m s).1
  pub starts : (m s).0 ≡ Outcome.done none → StartedIn (m s).1 name

module _ {S : Type 0} (name : String) (ctx : Context) (s : RunState S) where
  StartsAt-unless :
      (b : Bool) (h : Handler S)
      → h.started ≡ b
      → lookup name s.router.handlers ≡ some h
      → h.name ≡ name
      → StartsAt name s (start_unless b ctx h)
  StartsAt-unless true h b e n =
      unfold start_unless in
      record { others = λ k ne. refl; running = refl; named = λ n. n; starts = λ p. rw e b }
  StartsAt-unless false h b e n =
      let k = Starts-unstarted name ctx h n in
      record { others = k.others s; running = k.running s; named = k.named s; starts = k.starts s }

  StartsAt-found :
      (found : Option (Handler S))
      → lookup name s.router.handlers ≡ found
      → IsNamed s.router
      → StartsAt name s (run_found ctx found)
  unfolding run_found
  StartsAt-found none e v = record {
    others = λ k ne. refl;
    running = refl;
    named = λ n. n;
    starts = λ p. rw e tt;
  }
  StartsAt-found (some h) e v = StartsAt-unless h.started h refl e (v name h e)

  pub StartsAt-run_handler : IsNamed s.router → StartsAt name s (run_handler ctx name)
  unfolding run_handler
  StartsAt-run_handler v =
      let k = StartsAt-found (lookup name s.router.handlers) refl v in
      record { others = k.others; running = k.running; named = k.named; starts = k.starts }

  pub IsNamed-run_handler : IsNamed s.router → IsNamed (run_handler ctx name s).1.router
  IsNamed-run_handler v k h e = elim (Bool-cases (name == k)) [
    | inl same ↦
        let p = (eq_iff name k).0 same in
        (StartsAt-run_handler v).named (v name) h
          (subst (λ x. lookup x (run_handler ctx name s).1.router.handlers ≡ some h) (sym p) e)
        ∙ p
    | inr other ↦
        v k h (sym ((StartsAt-run_handler v).others k (λ p. ground (arith, eq_iff name k))) ∙ e)
  ]

  pub StartedIn-run_handler :
      IsNamed s.router
      → (run_handler ctx name s).0 ≡ Outcome.done none
      → (k : String) → StartedIn s k
      → StartedIn (run_handler ctx name s).1 k
  StartedIn-run_handler v p k h = elim (Bool-cases (name == k)) [
    | inl same ↦
        subst (StartedIn (run_handler ctx name s).1) ((eq_iff name k).0 same)
          ((StartsAt-run_handler v).starts p)
    | inr other ↦
        subst IsStarted
          (sym ((StartsAt-run_handler v).others k (λ p. ground (arith, eq_iff name k)))) h
  ]
