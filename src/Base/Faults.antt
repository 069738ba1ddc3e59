-- ===== src/Base/Faults.antt =====
-- The outcome of C code that may have undefined behaviour: a value, or a fault such as an access
-- out of bounds or through NULL. A loop that runs on fuel may also run out of it. The do notation
-- runs such steps in order.
use mathlib.Core.Path.{◌≡◌, refl}

pub data Outcome {ℓ} (A : Type ℓ) : Type ℓ where
  ok : A → Outcome A
  fault : Outcome A
  out_of_fuel : Outcome A

infixl 5 ◌>>=◌ ◌>>◌
abbrev pub ◌>>=◌ {ℓ κ} : {A : Type ℓ} {B : Type κ} → Outcome A → (A → Outcome B) → Outcome B
ok a >>= f = f a
fault >>= f = fault
out_of_fuel >>= f = out_of_fuel

abbrev pub ◌>>◌ {ℓ} : {B : Type ℓ} → Outcome (Unit {0}) → Outcome B → Outcome B
m >> k = m >>= λ _. k

-- The code does not fault, its fuel suffices, and its value has the property.
abbrev pub Returns {ℓ} : {A : Type ℓ} → (A → Type 0) → Outcome A → Type 0
Returns P (ok a) = P a
Returns P fault = ⊥
Returns P out_of_fuel = ⊥

pub Returns-bind {ℓ κ} :
    {A : Type ℓ} {B : Type κ} (P : A → Type 0) (Q : B → Type 0) (m : Outcome A) (f : A → Outcome B)
    → Returns P m
    → ((a : A) → P a → Returns Q (f a))
    → Returns Q (m >>= f)
Returns-bind P Q (ok a) f h next = next a h
Returns-bind P Q fault f h next = absurd h
Returns-bind P Q out_of_fuel f h next = absurd h

pub Returns-inv {ℓ} :
    {A : Type ℓ} (P : A → Type 0) (m : Outcome A) → Returns P m → (a : A) × (m ≡ ok a) × P a
Returns-inv P (ok a) h = (a, refl, h)
Returns-inv P fault h = absurd h
Returns-inv P out_of_fuel h = absurd h

-- The code ends, and either its value has the property or it faults, which implies something.
abbrev pub Settles {ℓ} : {A : Type ℓ} → Type 0 → (A → Type 0) → Outcome A → Type 0
Settles D P (ok a) = P a
Settles D P fault = D
Settles D P out_of_fuel = ⊥

pub Settles-bind {ℓ κ} :
    {A : Type ℓ} {B : Type κ} (D : Type 0) (P : A → Type 0) (Q : B → Type 0) (m : Outcome A)
    (f : A → Outcome B)
    → Settles D P m
    → ((a : A) → P a → Settles D Q (f a))
    → Settles D Q (m >>= f)
Settles-bind D P Q (ok a) f h next = next a h
Settles-bind D P Q fault f h next = h
Settles-bind D P Q out_of_fuel f h next = absurd h

pub Returns-weaken {ℓ} :
    {A : Type ℓ} (P Q : A → Type 0) (m : Outcome A)
    → Returns P m
    → ((a : A) → P a → Q a)
    → Returns Q m
Returns-weaken P Q (ok a) h f = f a h
Returns-weaken P Q fault h f = absurd h
Returns-weaken P Q out_of_fuel h f = absurd h

-- One step whose value is known.
pub Returns-step {ℓ κ} :
    {A : Type ℓ} {B : Type κ} (Q : B → Type 0) (m : Outcome A) (f : A → Outcome B) {a : A}
    → m ≡ ok a
    → Returns Q (f a)
    → Returns Q (m >>= f)
Returns-step Q m f e h = rw (e) h

-- A run with a value has a value at its first step.
pub bind-inv {ℓ κ} :
    {A : Type ℓ} {B : Type κ} (m : Outcome A) (f : A → Outcome B) {b : B}
    → (m >>= f) ≡ ok b
    → (a : A) × (m ≡ ok a) × (f a ≡ ok b)
bind-inv (ok a) f e = (a, refl, e)
bind-inv fault f e = absurd (cc)
bind-inv out_of_fuel f e = absurd (cc)

module _ {ℓ κ μ} {A : Type ℓ} {B : Type κ} {C : Type μ} where
  pub bind_assoc :
      (m : Outcome A) (f : A → Outcome B) (g : B → Outcome C)
      → ((m >>= f) >>= g) ≡ (m >>= λ a. f a >>= g)
  bind_assoc (ok a) f g = refl
  bind_assoc fault f g = refl
  bind_assoc out_of_fuel f g = refl

module _ {ℓ κ} {A : Type ℓ} {B : Type κ} where
  pub bind-ext :
      (m : Outcome A) (f g : A → Outcome B) → ((a : A) → f a ≡ g a) → (m >>= f) ≡ (m >>= g)
  bind-ext (ok a) f g h = h a
  bind-ext fault f g h = refl
  bind-ext out_of_fuel f g h = refl

-- The value renamed.
pub Settles-rename {ℓ κ} :
    {A : Type ℓ} {B : Type κ} (D : Type 0) (Q : B → Type 0) (g : A → B) (m : Outcome A)
    → Settles D Q (m >>= λ a. ok (g a))
    → Settles D (λ a. Q (g a)) m
Settles-rename D Q g (ok a) h = h
Settles-rename D Q g fault h = h
Settles-rename D Q g out_of_fuel h = h

pub Settles-renamed {ℓ κ} :
    {A : Type ℓ} {B : Type κ} (D : Type 0) (Q : B → Type 0) (g : A → B) (m : Outcome A)
    → Settles D (λ a. Q (g a)) m
    → Settles D Q (m >>= λ a. ok (g a))
Settles-renamed D Q g (ok a) h = h
Settles-renamed D Q g fault h = h
Settles-renamed D Q g out_of_fuel h = h

pub Settles-weaken {ℓ} :
    {A : Type ℓ} (D : Type 0) (P Q : A → Type 0) (m : Outcome A)
    → Settles D P m
    → ((a : A) → P a → Settles D Q (ok a))
    → Settles D Q m
Settles-weaken D P Q (ok a) h f = f a h
Settles-weaken D P Q fault h f = h
Settles-weaken D P Q out_of_fuel h f = absurd h

pub Returns-Settles {ℓ} :
    {A : Type ℓ} (D : Type 0) (P Q : A → Type 0) (m : Outcome A)
    → Returns P m
    → ((a : A) → P a → Settles D Q (ok a))
    → Settles D Q m
Returns-Settles D P Q (ok a) h f = f a h
Returns-Settles D P Q fault h f = absurd h
Returns-Settles D P Q out_of_fuel h f = absurd h

pub ok-injective {ℓ} : {A : Type ℓ} {a b : A} → ok a ≡ ok b → a ≡ b
ok-injective e = cc

-- What is known of the value if there is one.
pub Settles-ok {ℓ} :
    {A : Type ℓ} (D : Type 0) (P Q : A → Type 0) (m : Outcome A)
    → Settles D P m
    → ((a : A) → m ≡ ok a → Q a)
    → Settles D Q m
Settles-ok D P Q (ok a) h f = f a refl
Settles-ok D P Q fault h f = h
Settles-ok D P Q out_of_fuel h f = absurd h

pub Settles-both {ℓ} :
    {A : Type ℓ} (D : Type 0) (P Q : A → Type 0) (m : Outcome A)
    → Settles D P m
    → ((a : A) → m ≡ ok a → Q a)
    → Settles D (λ a. P a × Q a) m
Settles-both D P Q (ok a) h f = (h, f a refl)
Settles-both D P Q fault h f = h
Settles-both D P Q out_of_fuel h f = absurd h

-- Where there is a value, it has the property.
abbrev pub Yields {ℓ} : {A : Type ℓ} → (A → Type 0) → Outcome A → Type 0
Yields P (ok a) = P a
Yields P fault = Unit
Yields P out_of_fuel = Unit

pub Yields-bind {ℓ κ} :
    {A : Type ℓ} {B : Type κ} (P : A → Type 0) (Q : B → Type 0) (m : Outcome A) (f : A → Outcome B)
    → Yields P m
    → ((a : A) → P a → Yields Q (f a))
    → Yields Q (m >>= f)
Yields-bind P Q (ok a) f h next = next a h
Yields-bind P Q fault f h next = tt
Yields-bind P Q out_of_fuel f h next = tt

-- Whatever the value of the first step is.
pub Yields-then {ℓ κ} :
    {A : Type ℓ} {B : Type κ} (Q : B → Type 0) (m : Outcome A) (f : A → Outcome B)
    → ((a : A) → Yields Q (f a))
    → Yields Q (m >>= f)
Yields-then Q (ok a) f next = next a
Yields-then Q fault f next = tt
Yields-then Q out_of_fuel f next = tt

pub Returns-both {ℓ} :
    {A : Type ℓ} (P Q : A → Type 0) (m : Outcome A)
    → Returns P m
    → Returns Q m
    → Returns (λ a. P a × Q a) m
Returns-both P Q (ok a) h k = (h, k)
Returns-both P Q fault h k = absurd h
Returns-both P Q out_of_fuel h k = absurd h
