-- ===== src/Common/Options.antt =====
-- Chains of computations that may stop: `none` is what a Go run-time panic, or a returned error
-- whose text does not matter, comes to.
use mathlib.Core.Path.{◌≡◌, refl}
use mathlib.Core.Option.{Option, none, some}

infixl 5 ◌>>=◌
abbrev pub ◌>>=◌ {ℓ κ} : {A : Type ℓ} {B : Type κ} → Option A → (A → Option B) → Option B
none >>= f = none
some a >>= f = f a

pub >>=-eq-some {ℓ κ} :
    {A : Type ℓ} {B : Type κ} (m : Option A) (f : A → Option B) {b : B}
    → (m >>= f) ≡ some b
    → (a : A) × (m ≡ some a) × (f a ≡ some b)
>>=-eq-some none f h = cc
>>=-eq-some (some a) f h = (a, refl, h)

-- The predicate holds of the value, if there is one.
abbrev pub OnSome {ℓ κ} : {A : Type ℓ} → (A → Type κ) → Option A → Type κ
OnSome P none = Unit
OnSome P (some a) = P a

pub OnSome->>= {ℓ κ μ} :
    {A : Type ℓ} {B : Type κ} (P : A → Type μ) (Q : B → Type μ) (m : Option A) (f : A → Option B)
    → OnSome P m
    → ((a : A) → P a → OnSome Q (f a))
    → OnSome Q (m >>= f)
OnSome->>= P Q none f h k = tt
OnSome->>= P Q (some a) f h k = k a h

pub OnSome->>=_all {ℓ κ μ} :
    {A : Type ℓ} {B : Type κ} (Q : B → Type μ) (m : Option A) (f : A → Option B)
    → ((a : A) → OnSome Q (f a))
    → OnSome Q (m >>= f)
OnSome->>=_all Q none f k = tt
OnSome->>=_all Q (some a) f k = k a

pub OnSome-mono {ℓ κ μ} :
    {A : Type ℓ} (P : A → Type κ) (Q : A → Type μ) (m : Option A)
    → OnSome P m
    → ((a : A) → P a → Q a)
    → OnSome Q m
OnSome-mono P Q none h k = tt
OnSome-mono P Q (some a) h k = k a h

pub OnSome-both {ℓ κ μ} :
    {A : Type ℓ} (P : A → Type κ) (Q : A → Type μ) (m : Option A)
    → OnSome P m
    → OnSome Q m
    → OnSome (λ a. P a × Q a) m
OnSome-both P Q none h k = tt
OnSome-both P Q (some a) h k = (h, k)
