-- ===== src/Base/Ending.antt =====
-- What a call in the kernel that does not wait ends in, with the rules for each way in which calls are put
-- together.
use cerberus_os.Base.Tests.{if◌then◌else◌}
use mathlib.Core.Option.{Option, none, some}
use mathlib.Core.Bool.{Bool, true, false}
use mathlib.Core.Path.{◌≡◌, refl}
use cerberus_os.Base.Outcome.{
  Outcome, done, panicked, spinning, ◌>>=◌, assert, Anything, Settles, returns, halts, returned,
  Completes,
}

-- The call returns, and the property holds of what it returns.
pub data Makes {ℓ} {A : Type ℓ} (P : A → Type 0) : Outcome A → Type ℓ where
  makes : {a : A} → P a → Makes P (done a)

module _ {ℓ} {A : Type ℓ} {P : A → Type 0} where
  pub make_bind {κ} :
      {B : Type κ} {Q : B → Type 0} (m : Outcome B) {f : B → Outcome A}
      → Makes Q m
      → ((b : B) → Q b → Makes P (f b))
      → Makes P (m >>= f)
  make_bind (done b) (makes h) g = g b h
  make_bind panicked h g = elim h [ ]
  make_bind spinning h g = elim h [ ]

  pub make_weaken : {Q : A → Type 0} {m : Outcome A} → Makes Q m → ((a : A) → Q a → P a) → Makes P m
  make_weaken (makes h) g = makes (g _ h)

  pub make_settle : {m : Outcome A} → Makes P m → Settles P m
  make_settle (makes h) = returns h

  pub make_complete : {m : Outcome A} → Makes P m → (a : A) × (m ≡ done a)
  make_complete (makes h) = (_, refl)

module _ {ℓ} {A : Type ℓ} where
  pub make_of : (m : Outcome A) → Completes m → Makes Anything m
  make_of (done a) c = makes tt
  make_of panicked c = elim c [ ]
  make_of spinning c = elim c [ ]

module _ {ℓ} {A : Type ℓ} {P : A → Type 0} where
  pub make_if :
      (b : Bool) {m n : Outcome A}
      → (b ≡ true → Makes P m)
      → (b ≡ false → Makes P n)
      → Makes P (if b then m else n)
  make_if true h g = h refl
  make_if false h g = g refl

  pub make_option {κ} :
      {B : Type κ} (o : Option B) {m : Outcome A} {f : B → Outcome A}
      → (o ≡ none → Makes P m)
      → ((b : B) → o ≡ some b → Makes P (f b))
      → Makes P (elim o [ none ↦ m | some b ↦ f b ])
  make_option none h g = h refl
  make_option (some b) h g = g b refl

-- The call returns a value with the property, or it panics for the reason given.
pub data Ends {ℓ} {A : Type ℓ} (Reason : Type 0) (P : A → Type 0) : Outcome A → Type ℓ where
  ends : {a : A} → P a → Ends Reason P (done a)
  fails : Reason → Ends Reason P panicked

module _ {ℓ} {A : Type ℓ} {Reason : Type 0} {P : A → Type 0} where
  pub end_bind {κ} :
      {B : Type κ} {Q : B → Type 0} (m : Outcome B) {f : B → Outcome A}
      → Makes Q m
      → ((b : B) → Q b → Ends Reason P (f b))
      → Ends Reason P (m >>= f)
  end_bind (done b) (makes h) g = g b h
  end_bind panicked h g = elim h [ ]
  end_bind spinning h g = elim h [ ]

  -- The result is one that the first call may have.
  pub end_named {κ} :
      {B : Type κ} {Q : B → Type 0} (m : Outcome B) {f : B → Outcome A}
      → Makes Q m
      → ((b : B) → m ≡ done b → Q b → Ends Reason P (f b))
      → Ends Reason P (m >>= f)
  end_named (done b) (makes h) g = g b refl h
  end_named panicked h g = elim h [ ]
  end_named spinning h g = elim h [ ]

  pub end_make : {m : Outcome A} → Makes P m → Ends Reason P m
  end_make (makes h) = ends h

  pub end_then {κ} :
      {B : Type κ} {Q : B → Type 0} (m : Outcome B) {f : B → Outcome A}
      → Ends Reason Q m
      → ((b : B) → Q b → Makes P (f b))
      → Ends Reason P (m >>= f)
  end_then (done b) (ends h) g = end_make (g b h)
  end_then panicked (fails r) g = fails r
  end_then spinning h g = elim h [ ]

  pub end_if :
      (b : Bool) {m n : Outcome A}
      → (b ≡ true → Ends Reason P m)
      → (b ≡ false → Ends Reason P n)
      → Ends Reason P (if b then m else n)
  end_if true h g = h refl
  end_if false h g = g refl

  pub end_option {κ} :
      {B : Type κ} (o : Option B) {m : Outcome A} {f : B → Outcome A}
      → (o ≡ none → Ends Reason P m)
      → ((b : B) → o ≡ some b → Ends Reason P (f b))
      → Ends Reason P (elim o [ none ↦ m | some b ↦ f b ])
  end_option none h g = h refl
  end_option (some b) h g = g b refl

  pub end_assert :
      (b : Bool) {m : Outcome A}
      → (b ≡ true → Ends Reason P m)
      → (b ≡ false → Reason)
      → Ends Reason P (assert b m)
  end_assert true h g = h refl
  end_assert false h g = fails (g refl)

  pub end_weaken :
      {Why : Type 0} {Q : A → Type 0} {m : Outcome A}
      → Ends Why Q m
      → (Why → Reason)
      → ((a : A) → Q a → P a)
      → Ends Reason P m
  end_weaken (ends h) f g = ends (g _ h)
  end_weaken (fails r) f g = fails (f r)

  pub end_panicked : {m : Outcome A} → Ends Reason P m → m ≡ panicked → Reason
  end_panicked (ends h) e = absurd (cc e)
  end_panicked (fails r) e = r

  -- A call that returns or panics does not wait.
  pub end_settle : {m : Outcome A} → Ends Reason P m → Settles P m
  end_settle (ends h) = returns h
  end_settle (fails r) = halts

module _ {ℓ} {A : Type ℓ} {P : A → Type 0} where
  pub end_never : {m : Outcome A} → Ends ⊥ P m → Makes P m
  end_never (ends h) = makes h
  end_never (fails r) = absurd r

module _ {ℓ} {A : Type ℓ} {P Q : A → Type 0} where
  pub make_both : {m : Outcome A} → Makes P m → Settles Q m → Makes (λ a. Q a × P a) m
  make_both (makes h) s = makes (returned s, h)
