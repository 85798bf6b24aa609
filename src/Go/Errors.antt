-- ===== src/Go/Errors.antt =====
-- Errors and the values of panics. An error is the term of the calls that made it, so that nothing
-- is said of the texts which third-party wrappers print.
use watermill.Prelude.{String, Option, none, some}

mutual
  pub data Err : Type 0 where
    -- errors.New(text), fmt.Errorf(text, ...)
    new : String → Err
    -- errors.Wrap(err, text), fmt.Errorf("text: %w", err)
    wrap : Err → String → Err
    -- errors.WithStack(err)
    with_stack : Err → Err
    -- stdErrors.Join(err, err)
    join : Err → Err → Err
    -- context.Canceled, context.DeadlineExceeded
    canceled : Err
    deadline_exceeded : Err
    -- a value of an error type that the program declares: the type's name and its text fields
    typed : String → String → Err
    -- middleware.RecoveredPanicError
    recovered_panic : PanicValue → Err

  pub data PanicValue : Type 0 where
    text : String → PanicValue
    error : Err → PanicValue
    nothing : PanicValue

-- stdErrors.Join drops a nil
abbrev pub join_err : Option Err → Err → Err
join_err none e = e
join_err (some d) e = Err.join d e
