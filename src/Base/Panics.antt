-- ===== src/Base/Panics.antt =====
-- Rust code that may panic: the outcome is a value, or the panic.
use mathlib.Core.Path.{◌≡◌, refl, subst}
use mathlib.Core.Bool.{Bool, true, false}
use audesys.Base.Tests.{if◌then◌else◌}
use mathlib.Core.Option.{Option, none, some}

pub data Outcome {ℓ} (A : Type ℓ) : Type ℓ where
  ok : A → Outcome A
  panic : Outcome A

infixl 5 ◌>>=◌ ◌>>◌
abbrev pub ◌>>=◌ {ℓ κ} : {A : Type ℓ} {B : Type κ} → Outcome A → (A → Outcome B) → Outcome B
ok a >>= f = f a
panic >>= f = panic

abbrev pub ◌>>◌ {ℓ} : {B : Type ℓ} → Outcome (Unit {0}) → Outcome B → Outcome B
m >> k = m >>= λ _. k

-- `assert!`.
abbrev pub assert : Bool → Outcome (Unit {0})
assert true = ok tt
assert false = panic

-- An access that panics where there is nothing.
abbrev pub expect {ℓ} : {A : Type ℓ} → Option A → Outcome A
expect none = panic
expect (some a) = ok a

-- `P` holds of the value, if there is one.
pub data Post {ℓ κ} {A : Type ℓ} (P : A → Type κ) : Outcome A → Type (ℓ ⊔ κ) where
  returns : {a : A} → P a → Post P (ok a)
  panics : Post P panic

-- There is a value, and `P` holds of it.
pub data Total {ℓ κ} {A : Type ℓ} (P : A → Type κ) : Outcome A → Type (ℓ ⊔ κ) where
  total : {a : A} → P a → Total P (ok a)

module _ {ℓ κ} {A : Type ℓ} {B : Type κ} where
  pub Post-bind {μ ν} :
      {P : A → Type μ} {Q : B → Type ν} {r : Outcome A} {f : A → Outcome B}
      → Post P r
      → ((a : A) → P a → Post Q (f a))
      → Post Q (r >>= f)
  Post-bind (returns h) k = k _ h
  Post-bind panics k = panics

  pub Total-bind {μ ν} :
      {P : A → Type μ} {Q : B → Type ν} {r : Outcome A} {f : A → Outcome B}
      → Total P r
      → ((a : A) → P a → Total Q (f a))
      → Total Q (r >>= f)
  Total-bind (total h) k = k _ h

module _ {ℓ} {A : Type ℓ} where
  -- The value of an outcome that has a postcondition meets it.
  pub Post-ok {κ} : {P : A → Type κ} {r : Outcome A} {a : A} → Post P r → r ≡ ok a → P a
  Post-ok {P = P} (returns {a = b} h) e = subst P (ok-injective e) h
    where
      use_value : Outcome A → A
      use_value (ok x) = x
      use_value panic = b

      ok-injective : {a : A} → ok b ≡ ok a → b ≡ a
      ok-injective p = λ i. use_value (p i)
  Post-ok panics e = absurd (cc)

  pub Post-weaken {κ μ} :
      {P : A → Type κ} {Q : A → Type μ} {r : Outcome A}
      → Post P r
      → ((a : A) → P a → Q a)
      → Post Q r
  Post-weaken (returns h) k = returns (k _ h)
  Post-weaken panics k = panics

  pub Total-ok {κ} : {P : A → Type κ} {r : Outcome A} → Total P r → (a : A) × (r ≡ ok a) × P a
  Total-ok (total {a = a} h) = (a, refl, h)

  pub assert-Post {κ} :
      {Q : A → Type κ} (b : Bool) {m : Outcome A} → (b ≡ true → Post Q m) → Post Q (assert b >> m)
  assert-Post true k = k refl
  assert-Post false k = panics

  pub Post-any : (m : Outcome A) → Post (λ _. Unit {0}) m
  Post-any (ok a) = returns tt
  Post-any panic = panics

  pub if-Post {κ} :
      {Q : A → Type κ} (b : Bool) {m n : Outcome A}
      → Post Q m
      → Post Q n
      → Post Q (if b then m else n)
  if-Post true p q = p
  if-Post false p q = q

  -- The branch that is taken, with the test that led there.
  pub if-Post_cases {κ} :
      {Q : A → Type κ} (b : Bool) {m n : Outcome A}
      → (b ≡ true → Post Q m)
      → (b ≡ false → Post Q n)
      → Post Q (if b then m else n)
  if-Post_cases true p q = p refl
  if-Post_cases false p q = q refl

-- Where a chain gives a value, so did its first part.
pub bind-ok {ℓ κ} :
    {A : Type ℓ} {B : Type κ} (o : Outcome A) {f : A → Outcome B} {b : B}
    → (o >>= f) ≡ ok b
    → (a : A) × (o ≡ ok a) × (f a ≡ ok b)
bind-ok (ok a) h = (a, refl, h)
bind-ok panic h = cc
