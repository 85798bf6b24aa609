-- ===== src/Go/Effects.antt =====
-- Statements over a state `S` that may panic, `defer` and `recover`, and closing a channel.
use watermill.Prelude.{◌≡◌, ap, refl, Bool, true, false, false≢true}
use watermill.Go.Errors.{Err, PanicValue}

pub data Outcome {ℓ} (A : Type ℓ) : Type ℓ where
  done : A → Outcome A
  panics : PanicValue → Outcome A

abbrev pub Go {ℓ κ} : Type ℓ → Type κ → Type (ℓ ⊔ κ)
Go S A = S → Outcome A × S

module _ {ℓ κ} {S : Type ℓ} {A : Type κ} where
  abbrev pub pure : A → Go S A
  pure a s = (done a, s)

  abbrev pub panic : PanicValue → Go S A
  panic p s = (panics p, s)

  abbrev pub gets : (S → A) → Go S A
  gets f s = (done (f s), s)

abbrev pub modify {ℓ} : {S : Type ℓ} → (S → S) → Go S (Unit {0})
modify f s = (done tt, f s)

module _ {ℓ κ μ} {S : Type ℓ} {A : Type κ} {B : Type μ} where
  -- A panic skips the rest.
  abbrev pub resume : Outcome A → (A → Go S B) → Go S B
  resume (done a) f s = f a s
  resume (panics p) f s = (panics p, s)

  infixl 5 ◌>>=◌
  abbrev pub ◌>>=◌ : Go S A → (A → Go S B) → Go S B
  ◌>>=◌ m f s = let (out, s') = m s in resume out f s'

  pub >>=-done :
      (m : Go S A) (f : A → Go S B) {s s' : S} {a : A} → m s ≡ (done a, s') → (m >>= f) s ≡ f a s'
  >>=-done m f e = ap (λ t. resume t.0 f t.1) e

abbrev is_done {ℓ} : {A : Type ℓ} → Outcome A → Bool
is_done (done a) = true
is_done (panics p) = false

resume_parts {ℓ κ μ} :
    {S : Type ℓ} {A : Type κ} {B : Type μ} (f : A → Go S B) (out : Outcome A) (s s' : S) (b : B)
    → resume out f s ≡ (done b, s')
    → (a : A) × (out ≡ done a) × (f a s ≡ (done b, s'))
resume_parts f (done a) s s' b e = (a, refl, e)
resume_parts f (panics p) s s' b e = absurd (false≢true (ap (λ t. is_done t.0) e))

-- What has returned has done so step by step.
pub >>=_parts {ℓ κ μ} :
    {S : Type ℓ} {A : Type κ} {B : Type μ} (m : Go S A) (f : A → Go S B) (s s' : S) (b : B)
    → (m >>= f) s ≡ (done b, s')
    → (a : A) × ((m s).0 ≡ done a) × (f a (m s).1 ≡ (done b, s'))
>>=_parts m f s s' b e = resume_parts f (m s).0 (m s).1 s' b e

infixl 5 ◌>>◌
abbrev pub ◌>>◌ {ℓ κ} : {S : Type ℓ} {B : Type κ} → Go S (Unit {0}) → Go S B → Go S B
m >> k = m >>= λ _. k

-- The value of the body, unless the deferred call panics.
abbrev after_deferred {ℓ κ} : {S : Type ℓ} {A : Type κ} → Outcome A → Go S (Unit {0}) → Go S A
after_deferred out cleanup s = let (o, s') = cleanup s in resume o (λ _ t. (out, t)) s'

-- defer cleanup(); body
abbrev pub defer_call {ℓ κ} : {S : Type ℓ} {A : Type κ} → Go S (Unit {0}) → Go S A → Go S A
defer_call cleanup body s = let (out, s') = body s in after_deferred out cleanup s'

abbrev pub on_panic {ℓ κ} : {S : Type ℓ} {A : Type κ} → Outcome A → (PanicValue → Go S A) → Go S A
on_panic (done a) handle s = (done a, s)
on_panic (panics p) handle s = handle p s

-- defer func() { if r := recover(); r != nil { ... } }(); body
abbrev pub recover_by {ℓ κ} : {S : Type ℓ} {A : Type κ} → (PanicValue → Go S A) → Go S A → Go S A
recover_by handle body s = let (out, s') = body s in on_panic out handle s'

-- `(value, error)` where one of the two is nil
pub data Result {ℓ} (A : Type ℓ) : Type ℓ where
  ok : A → Result A
  fail : Err → Result A

-- A channel on which nothing is sent.
pub data Chan : Type 0 where
  nil_chan open_chan closed_chan : Chan

-- close(ch)
unfoldable pub close_chan : Chan → Outcome Chan
close_chan Chan.nil_chan = panics (PanicValue.text "close of nil channel")
close_chan Chan.open_chan = done Chan.closed_chan
close_chan Chan.closed_chan = panics (PanicValue.text "close of closed channel")
