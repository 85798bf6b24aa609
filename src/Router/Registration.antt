-- ===== src/Router/Registration.antt =====
-- The map of handlers and the count of handlersWg.
use watermill.Prelude.{
  ◌+◌, String, ◌==◌, eq_iff, if◌then◌else◌, false, Option, none, some, length, ◌≡◌, refl, arith,
  lookup, HasUniqueKeys, lookup-insert, insert-HasUniqueKeys, length-insert,
}
use watermill.Go.{Outcome, PanicValue}
use watermill.PubSub.{Publisher, Subscriber, HandlerFunc}
use watermill.Router.Defs.{
  Router, Handler, struct_name, register, add_handler, duplicate_handler_name,
}

-- Each handler stands once in the map, under its name, and handlersWg counts them.
pub record IsValid {S : Type 0} (r : Router S) : Type 0 where
  pub unique : HasUniqueKeys r.handlers
  pub counted : r.handlers_wg ≡ length r.handlers
  pub named : (k : String) (h : Handler S) → lookup k r.handlers ≡ some h → h.name ≡ k

module _ {S : Type 0} (h : Handler S) (r : Router S) where
  register-IsValid :
      (found : Option (Handler S))
      → lookup h.name r.handlers ≡ found
      → IsValid r
      → IsValid (register h found r).1
  unfolding register
  register-IsValid (some old) e v = v
  register-IsValid none e v = record {
    unique = insert-HasUniqueKeys h.name h r.handlers v.unique;
    counted = ground (arith, v.counted, length-insert h.name h r.handlers);
    named =
        λ k g. ground (arith, lookup-insert h.name k h r.handlers, v.named k g, eq_iff h.name k);
  }

module _ {S : Type 0} where
  abbrev pub new_handler :
      String → String → Subscriber S → String → Option (Publisher S) → HandlerFunc S → Handler S
  new_handler name topic subscriber publish_topic publisher f = record {
    name = name;
    subscriber = subscriber;
    subscribe_topic = topic;
    subscriber_name = subscriber.name;
    publisher = publisher;
    publish_topic = publish_topic;
    publisher_name = struct_name publisher;
    handler_func = f;
    messages_ch = none;
    started = false;
    stop_ctx = none;
  }

  -- What AddHandler has done: it has panicked on a name that is taken and left the router as it
  -- was, or it has added the handler, not started, counted it, and left the others.
  pub data Added (h : Handler S) (out : Outcome (Unit {0})) (r r' : Router S) : Type 0 where
    duplicate :
        (old : Handler S)
        → lookup h.name r.handlers ≡ some old
        → out ≡ Outcome.panics (PanicValue.error (duplicate_handler_name h.name))
        → r' ≡ r
        → Added h out r r'
    added :
        lookup h.name r.handlers ≡ none
        → out ≡ Outcome.done tt
        → ((k : String)
            → lookup k r'.handlers ≡ (if h.name == k then some h else lookup k r.handlers))
        → r'.handlers_wg ≡ r.handlers_wg + 1
        → Added h out r r'

  register-Added :
      (h : Handler S) (r : Router S) (found : Option (Handler S))
      → lookup h.name r.handlers ≡ found
      → Added h (register h found r).0 r (register h found r).1
  unfolding register
  register-Added h r (some old) e = duplicate old e refl refl
  register-Added h r none e = added e refl (λ k. lookup-insert h.name k h r.handlers) refl

  -- On a router whose map holds each handler under its name and whose handlersWg counts them,
  -- AddHandler does what `Added` says, by whether the name is taken, and the router is still so.
  pub add_handler_lem :
      (name topic : String) (subscriber : Subscriber S) (publish_topic : String)
      (publisher : Option (Publisher S)) (f : HandlerFunc S) (r : Router S)
      → IsValid r
      → let (out, r') = add_handler name topic subscriber publish_topic publisher f r in
        IsValid r' × Added (new_handler name topic subscriber publish_topic publisher f) out r r'
  unfolding add_handler
  add_handler_lem name topic subscriber publish_topic publisher f r v = (
    register-IsValid _ r (lookup name r.handlers) refl v,
    register-Added (new_handler name topic subscriber publish_topic publisher f) r
        (lookup name r.handlers) refl,
  )
