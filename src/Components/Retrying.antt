-- ===== src/Components/Retrying.antt =====
-- internal/publisher/retry.go: how often a message is published.
use watermill.Prelude.{
  ℕ, suc, ◌+◌, ◌-◌, ◌<◌, pos, String, Option, none, some, [], ◌∷◌, ◌≡◌, ap, ◌∙◌, arith,
}
use watermill.Go.{Err, Outcome, >>=-done}
use watermill.Runtime.{World, M}
use watermill.PubSub.{Publisher}
use watermill.Components.RetryPublisher.{
  RetryPublisher, send, send_loop, turns, doubled, after_attempt, sleep_time,
}

module _ {S : Type 0} (sleep : ℕ → M S (Unit {0})) (p : Publisher S) (topic : String)
    (msg : ℕ) where
  -- A number of attempts that all fail, each followed by a sleep that is twice the one before: from
  -- the sleep, the error and the world before them to those after them.
  pub data Failing : ℕ → ℕ → Option Err → World S → ℕ → Option Err → World S → Type 0 where
    no_attempt : (t : ℕ) (e : Option Err) (w : World S) → Failing 0 t e w t e w
    attempt :
        (k t t' : ℕ) (e e' : Option Err) (err : Err) (w w1 w2 w' : World S)
        → p.publish topic (msg ∷ []) w ≡ (Outcome.done (some err), w1)
        → sleep t w1 ≡ (Outcome.done tt, w2)
        → Failing k (doubled t) (some err) w2 t' e' w'
        → Failing (suc k) t e w t' e' w'

  failing_turn :
      (n t : ℕ) (e : Option Err) (err : Err) (w w1 w2 : World S)
      → p.publish topic (msg ∷ []) w ≡ (Outcome.done (some err), w1)
      → sleep t w1 ≡ (Outcome.done tt, w2)
      → send_loop sleep p topic msg (suc n) t e w
        ≡ send_loop sleep p topic msg n (doubled t) (some err) w2
  unfolding send_loop
  failing_turn n t e err w w1 w2 f s =
      let again = send_loop sleep p topic msg n (doubled t) in
      >>=-done (p.publish topic (msg ∷ [])) (λ r. after_attempt sleep t r again) f
      ∙ >>=-done (sleep t) (λ _. again (some err)) s

  -- the loop goes through failing attempts one by one
  send_loop-Failing :
      (k n t t' : ℕ) (e e' : Option Err) (w w' : World S)
      → Failing k t e w t' e' w'
      → send_loop sleep p topic msg (k + n) t e w ≡ send_loop sleep p topic msg n t' e' w'
  unfolding send_loop
  send_loop-Failing _ n t _ e _ w _ (Failing.no_attempt _ _ _) =
      ap (λ m. send_loop sleep p topic msg m t e w) {y = n} (omega arith)
  send_loop-Failing _ n t t' e e' w w' (Failing.attempt k _ _ _ _ err _ w1 w2 _ f s fs) =
      ap (λ m. send_loop sleep p topic msg m t e w) {y = suc (k + n)} (omega arith)
      ∙ failing_turn (k + n) t e err w w1 w2 f s
      ∙ send_loop-Failing k n (doubled t) t' (some err) e' w2 w' fs

module _ {S : Type 0} (sleep : ℕ → M S (Unit {0})) (r : RetryPublisher S) (topic : String)
    (msg : ℕ) where
  -- Publishing fails a number of times in a row, less often than the number of retries, with a sleep
  -- after each time that is twice the one before, and then succeeds. Then sending the message ends
  -- after that success, without an error and without a further attempt.
  pub send_succeeds :
      (k max t' : ℕ) (e' : Option Err) (w w' w'' : World S)
      → r.config.max_retries ≡ pos max
      → k < max
      → Failing sleep r.publisher topic msg k
          (sleep_time r.config.time_to_first_retry)
          none
          w
          t'
          e'
          w'
      → r.publisher.publish topic (msg ∷ []) w' ≡ (Outcome.done none, w'')
      → send sleep r topic msg w ≡ (Outcome.done none, w'')
  unfolding send send_loop
  send_succeeds k max t' e' w w' w'' m lt fs ok =
      let t = sleep_time r.config.time_to_first_retry in
      let n = max - k - 1 in
      ap (λ z. send_loop sleep r.publisher topic msg (turns z) t none w) m
      ∙ ap (λ z. send_loop sleep r.publisher topic msg z t none w) {y = k + suc n} (omega arith)
      ∙ send_loop-Failing sleep r.publisher topic msg k (suc n) t t' none e' w w' fs
      ∙ >>=-done (r.publisher.publish topic (msg ∷ []))
          (λ result.
            after_attempt sleep t' result (send_loop sleep r.publisher topic msg n (doubled t')))
          ok

  -- Publishing fails as many times in a row as there are retries. Then sending the message ends with
  -- the error of the last time.
  pub send_gives_up :
      (max t' : ℕ) (e' : Option Err) (w w' : World S)
      → r.config.max_retries ≡ pos max
      → Failing sleep r.publisher topic msg max
          (sleep_time r.config.time_to_first_retry)
          none
          w
          t'
          e'
          w'
      → send sleep r topic msg w ≡ (Outcome.done e', w')
  unfolding send send_loop
  send_gives_up max t' e' w w' m fs =
      let t = sleep_time r.config.time_to_first_retry in
      ap (λ z. send_loop sleep r.publisher topic msg (turns z) t none w) m
      ∙ ap (λ z. send_loop sleep r.publisher topic msg z t none w) {y = max + 0} (omega arith)
      ∙ send_loop-Failing sleep r.publisher topic msg max 0 t t' none e' w w' fs
