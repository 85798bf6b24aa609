-- ===== src/Examples/Requeued.antt =====
-- The theorem on the requeuer at a concrete message, with integers written as strokes.
use Prim.Native.String.{◌++◌, count}
use text.Mathlib.TextLemmas.{length-append}
use watermill.Prelude.{
  ℕ, zero, suc, ◌+◌, ◌*◌, ◌/◌, ◌%◌, ℤ, pos, negsuc, ◌+ℤ◌, int64, String, true, ◌=ℕ◌, if◌then◌else◌,
  some, [], ◌∷◌, ◌≡◌, refl, ap, ◌∙◌, arith,
}
use watermill.Go.{Result, pure}
use watermill.Runtime.{World}
use watermill.Components.Requeuer.{Decimal, Requeuer, requeue_handler, retries_of, requeue_counts}
use watermill.Examples.Data.{Log, world, recorder}

strokes : ℕ → String
strokes zero = ""
strokes (suc n) = "|" ++ strokes n

count-strokes : (n : ℕ) → count (strokes n) ≡ n
unfolding strokes
count-strokes zero = refl
count-strokes (suc n) = length-append "|" (strokes n) ∙ omega (arith, count-strokes n)

-- an even number of strokes for the natural numbers, an odd one for the others
from_strokes : ℕ → ℤ
from_strokes k = if k % 2 =ℕ 0 then pos (k / 2) else negsuc (k / 2)

to_strokes : ℤ → ℕ
to_strokes (pos n) = n * 2
to_strokes (negsuc n) = n * 2 + 1

from_strokes-to_strokes : (z : ℤ) → from_strokes (to_strokes z) ≡ z
unfolding from_strokes to_strokes
from_strokes-to_strokes (pos n) = ground arith
from_strokes-to_strokes (negsuc n) = ground arith

abbrev decimal : Decimal
unfolding from_strokes strokes to_strokes
decimal = record { atoi = λ s. some (from_strokes (count s)); itoa = λ z. strokes (to_strokes z) }

reads : (z : ℤ) → decimal.atoi (decimal.itoa (int64 z)) ≡ some (int64 z)
unfolding decimal
reads z =
    ap (λ k. some (from_strokes k)) (count-strokes (to_strokes (int64 z)))
    ∙ ap (λ x. some x) (from_strokes-to_strokes (int64 z))

abbrev requeuer : Requeuer Log
requeuer = record {
  publisher = recorder;
  generate_publish_topic = λ msg. pure (Result.ok "again");
  delay = pos 0;
}

requeue_counts_example :
    (w2 : World Log) × (requeue_handler decimal (λ d ctx. pure true) requeuer 1 world
      ≡ recorder.publish "again" (1 ∷ []) w2)
    × (retries_of decimal (w2.cells 1) ≡ int64 (retries_of decimal (world.cells 1) +ℤ pos 1))
requeue_counts_example =
    requeue_counts decimal (λ d ctx. pure true) requeuer 1 "again" world world reads refl refl refl
      (λ e. cc)
