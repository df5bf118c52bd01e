-- ===== src/Base/Outcome.antt =====
-- What a call in the kernel ends in: a result, a panic (`unwrap` on `None`, a failed `assert!`, an
-- index out of bounds, all of which halt the core), or a wait that only another hart can end.
use mathlib.Core.Option.{Option, none, some}
use mathlib.Core.Bool.{Bool, true, false}
use mathlib.Core.Path.{◌≡◌, subst}
use cerberus_os.Base.Tests.{if◌then◌else◌}

pub data Outcome {ℓ} (A : Type ℓ) : Type ℓ where
  done : A → Outcome A
  panicked : Outcome A
  spinning : Outcome A

infixl 5 ◌>>=◌
abbrev pub ◌>>=◌ {ℓ κ} : {A : Type ℓ} {B : Type κ} → Outcome A → (A → Outcome B) → Outcome B
done a >>= f = f a
panicked >>= f = panicked
spinning >>= f = spinning

-- `.unwrap()`
abbrev pub unwrap {ℓ} : {A : Type ℓ} → Option A → Outcome A
unwrap none = panicked
unwrap (some a) = done a

-- `assert!`
abbrev pub assert {ℓ} : {A : Type ℓ} → Bool → Outcome A → Outcome A
assert true k = k
assert false k = panicked

-- The call does not wait, and the property holds of what it returns, if it returns.
pub data Settles {ℓ} {A : Type ℓ} (P : A → Type 0) : Outcome A → Type ℓ where
  returns : {a : A} → P a → Settles P (done a)
  halts : Settles P panicked

abbrev pub Anything {ℓ} : {A : Type ℓ} → A → Type 0
Anything a = Unit

-- The rules, one for each way in which calls are put together.
module _ {ℓ} {A : Type ℓ} {P : A → Type 0} where
  pub settle_bind {κ} :
      {B : Type κ} {Q : B → Type 0} (m : Outcome B) {f : B → Outcome A}
      → Settles Q m
      → ((b : B) → Q b → Settles P (f b))
      → Settles P (m >>= f)
  settle_bind (done b) (returns h) g = g b h
  settle_bind panicked h g = halts
  settle_bind spinning h g = elim h [ ]

  pub settle_unwrap {κ} :
      {B : Type κ} (o : Option B) {f : B → Outcome A}
      → ((b : B) → Settles P (f b))
      → Settles P (unwrap o >>= f)
  settle_unwrap none g = halts
  settle_unwrap (some b) g = g b

  pub settle_assert : (b : Bool) {m : Outcome A} → Settles P m → Settles P (assert b m)
  settle_assert true h = h
  settle_assert false h = halts

  pub settle_if :
      (b : Bool) {m n : Outcome A} → Settles P m → Settles P n → Settles P (if b then m else n)
  settle_if true h g = h
  settle_if false h g = g

  pub settle_option {κ} :
      {B : Type κ} (o : Option B) {m : Outcome A} {f : B → Outcome A}
      → Settles P m
      → ((b : B) → Settles P (f b))
      → Settles P (elim o [ none ↦ m | some b ↦ f b ])
  settle_option none h g = h
  settle_option (some b) h g = g b

  pub settle_weaken :
      {Q : A → Type 0} {m : Outcome A} → Settles Q m → ((a : A) → Q a → P a) → Settles P m
  settle_weaken (returns h) g = returns (g _ h)
  settle_weaken halts g = halts

  pub settle_then {κ} :
      {B : Type κ} (m : Outcome B) {f : B → Outcome A}
      → Settles Anything m
      → ((b : B) → Settles P (f b))
      → Settles P (m >>= f)
  settle_then m h g = settle_bind m h (λ b _. g b)

  pub returned : {a : A} → Settles P (done a) → P a
  returned (returns h) = h

  pub settle_done : {m : Outcome A} {a : A} → Settles P m → m ≡ done a → P a
  settle_done h e = returned (subst (Settles P) e h)

module _ {ℓ} {A : Type ℓ} {P Q : A → Type 0} where
  pub settle_both : {m : Outcome A} → Settles P m → Settles Q m → Settles (λ a. P a × Q a) m
  settle_both (returns h) g = returns (h, returned g)
  settle_both halts g = halts

-- The call returns.
pub data Completes {ℓ} {A : Type ℓ} : Outcome A → Type ℓ where
  completes : {a : A} → Completes (done a)

module _ {ℓ} {A : Type ℓ} where
  pub complete_bind {κ} :
      {B : Type κ} (m : Outcome B) {f : B → Outcome A}
      → Completes m
      → ((b : B) → Completes (f b))
      → Completes (m >>= f)
  complete_bind (done b) h g = g b
  complete_bind panicked h g = elim h [ ]
  complete_bind spinning h g = elim h [ ]

  pub complete_if :
      (b : Bool) {m n : Outcome A} → Completes m → Completes n → Completes (if b then m else n)
  complete_if true h g = h
  complete_if false h g = g

  pub complete_option {κ} :
      {B : Type κ} (o : Option B) {m : Outcome A} {f : B → Outcome A}
      → Completes m
      → ((b : B) → Completes (f b))
      → Completes (elim o [ none ↦ m | some b ↦ f b ])
  complete_option none h g = h
  complete_option (some b) h g = g b
