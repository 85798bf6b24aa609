-- ===== src/Router/Defs.antt =====
-- message/router.go: the router's data, and the registration of handlers, middlewares and
-- decorators. The mutexes are left out: each method here runs while it holds them.
use watermill.Prelude.{
  ℕ, ◌+◌, String, Bool, true, false, ◌=ℕ◌, if◌then◌else◌, Option, none, some, List, [], ◌++◌, map,
  Map, lookup, insert,
}
use watermill.Go.{Err, PanicValue, Outcome, Chan, Go, Context, pure, ◌>>=◌}
use watermill.PubSub.{
  Publisher, Stream, Subscriber, HandlerFunc, NoPublishHandlerFunc, HandlerMiddleware,
  PublisherDecorator, SubscriberDecorator,
}

-- struct middleware
pub record Middleware (S : Type 0) : Type 0 where
  pub handler : HandlerMiddleware S
  pub handler_name : String
  pub is_router_level : Bool

-- struct handler; the stream stands for messagesCh, nil until the handler has subscribed
pub record Handler (S : Type 0) : Type 0 where
  pub name : String
  pub subscriber : Subscriber S
  pub subscribe_topic : String
  pub subscriber_name : String
  pub publisher : Option (Publisher S)
  pub publish_topic : String
  pub publisher_name : String
  pub handler_func : HandlerFunc S
  pub messages_ch : Option (Stream S)
  pub started : Bool
  pub stop_ctx : Option Context

-- struct Router without its plugins and its closing, which are in Router/Running and
-- Router/Lifecycle; `handlers_wg` is the counter of handlersWg
pub record Router (S : Type 0) : Type 0 where
  pub close_timeout : ℕ
  pub middlewares : List (Middleware S)
  pub handlers : Map (Handler S)
  pub handlers_wg : ℕ
  pub publisher_decorators : List (PublisherDecorator S)
  pub subscriber_decorators : List (SubscriberDecorator S)
  pub is_running : Bool
  pub running : Chan

-- RouterConfig.setDefaults: thirty seconds, in nanoseconds
unfoldable pub set_defaults : ℕ → ℕ
set_defaults close_timeout = if close_timeout =ℕ 0 then 30000000000 else close_timeout

-- DuplicateHandlerNameError, the value of a panic
abbrev pub duplicate_handler_name : String → Err
duplicate_handler_name name = Err.typed "DuplicateHandlerNameError" name

-- ErrOutputInNoPublisherHandler
abbrev pub err_output_in_no_publisher_handler : Err
err_output_in_no_publisher_handler =
    Err.new "returned output messages in a handler without publisher"

module _ {S : Type 0} where
  -- NewRouter; Validate accepts every configuration
  unfoldable pub new_router : ℕ → Router S
  unfolding set_defaults
  new_router close_timeout = record {
    close_timeout = set_defaults close_timeout;
    middlewares = [];
    handlers = [];
    handlers_wg = 0;
    publisher_decorators = [];
    subscriber_decorators = [];
    is_running = false;
    running = Chan.open_chan;
  }

  -- AddMiddleware
  unfoldable pub add_middleware : List (HandlerMiddleware S) → Router S → Router S
  add_middleware ms r = record r {
    middlewares =
        r.middlewares
        ++ map (λ m. record { handler = m; handler_name = ""; is_router_level = true }) ms;
  }

  -- addHandlerLevelMiddleware, Handler.AddMiddleware
  unfoldable pub add_handler_level_middleware :
      String → List (HandlerMiddleware S) → Router S → Router S
  add_handler_level_middleware handler_name ms r = record r {
    middlewares =
        r.middlewares
        ++ map (λ m. record { handler = m; handler_name = handler_name; is_router_level = false })
            ms;
  }

  -- AddPublisherDecorators
  unfoldable pub add_publisher_decorators : List (PublisherDecorator S) → Router S → Router S
  add_publisher_decorators dec r = record r { publisher_decorators = r.publisher_decorators ++ dec }

  -- AddSubscriberDecorators
  unfoldable pub add_subscriber_decorators : List (SubscriberDecorator S) → Router S → Router S
  add_subscriber_decorators dec r = record r {
    subscriber_decorators = r.subscriber_decorators ++ dec;
  }

  -- internal.StructName of an interface that may be nil
  unfoldable pub struct_name : Option (Publisher S) → String
  struct_name none = "<nil>"
  struct_name (some p) = p.name

  unfoldable pub register : Handler S → Option (Handler S) → Go (Router S) (Unit {0})
  unfolding insert
  register h (some old) r = (Outcome.panics (PanicValue.error (duplicate_handler_name h.name)), r)
  register h none r = (
    Outcome.done tt,
    record r { handlers_wg = r.handlers_wg + 1; handlers = insert h.name h r.handlers },
  )

  -- AddHandler
  unfoldable pub add_handler :
      String
      → String
      → Subscriber S
      → String
      → Option (Publisher S)
      → HandlerFunc S
      → Go (Router S) (Unit {0})
  unfolding register struct_name lookup
  add_handler handler_name subscribe_topic subscriber publish_topic publisher handler_func r =
      register
        (record {
          name = handler_name;
          subscriber = subscriber;
          subscribe_topic = subscribe_topic;
          subscriber_name = subscriber.name;
          publisher = publisher;
          publish_topic = publish_topic;
          publisher_name = struct_name publisher;
          handler_func = handler_func;
          messages_ch = none;
          started = false;
          stop_ctx = none;
        })
        (lookup handler_name r.handlers) r

  -- disabledPublisher
  unfoldable pub disabled_publisher : Publisher S
  disabled_publisher = record {
    name = "message.disabledPublisher";
    publish = λ topic messages. pure (some err_output_in_no_publisher_handler);
    close = pure none;
  }

  -- the adapter of AddConsumerHandler
  unfoldable pub handler_func_adapter : NoPublishHandlerFunc S → HandlerFunc S
  handler_func_adapter handler_func msg = do err ← handler_func msg; pure ([], err)

  -- AddConsumerHandler, AddNoPublisherHandler
  unfoldable pub add_consumer_handler :
      String → String → Subscriber S → NoPublishHandlerFunc S → Go (Router S) (Unit {0})
  unfolding add_handler disabled_publisher handler_func_adapter
  add_consumer_handler handler_name subscribe_topic subscriber handler_func =
      add_handler handler_name subscribe_topic subscriber "" (some disabled_publisher)
        (handler_func_adapter handler_func)

  -- Handlers
  unfoldable pub handlers_of : Router S → Map (HandlerFunc S)
  handlers_of r = map (λ (name, h). (name, h.handler_func)) r.handlers
