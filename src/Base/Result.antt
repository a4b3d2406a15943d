-- ===== src/Base/Result.antt =====
-- A computation that ends with a value or panics with a message. A panic of a contract call
-- reverts everything that the call did, so no state comes with it.
use Prim.Native.Nat.{ℕ}
use Prim.Native.String.{String}
use mathlib.Core.Path.{◌≡◌, refl}
use mathlib.Core.Bool.{Bool, true, false}
use mathlib.Core.Option.{Option, none, some}
use mathlib.Core.Logic.{inl, inr}
use chainsettle_contract.Base.{leb, if◌then◌else◌, Bool-cases}
use chainsettle_contract.Base.Int.{ℤ, ◌+ℤ◌, ◌-ℤ◌, ◌*ℤ◌, in_i128, u32_max}

pub data Result {ℓ} (A : Type ℓ) : Type ℓ where
  ok : A → Result A
  panic : String → Result A

infixl 5 ◌>>=◌ ◌>>◌
abbrev pub ◌>>=◌ {ℓ κ} : {A : Type ℓ} {B : Type κ} → Result A → (A → Result B) → Result B
ok a >>= f = f a
panic e >>= f = panic e

abbrev pub ◌>>◌ {ℓ} : {B : Type ℓ} → Result (Unit {0}) → Result B → Result B
m >> k = m >>= λ _. k

-- `if c { panic!(e) }`
unfoldable pub panic_if : Bool → String → Result (Unit {0})
panic_if true e = panic e
panic_if false e = ok tt

-- `unwrap_or_else(|| panic!(e))`
unfoldable pub or_panic {ℓ} : {A : Type ℓ} → Option A → String → Result A
or_panic none e = panic e
or_panic (some a) e = ok a

-- Overflow checks are on in the release profile: `+`, `-` and `*` on `i128` panic out of range.
unfoldable pub checked_i128 : ℤ → Result ℤ
checked_i128 a = if in_i128 a then ok a else panic "overflow"

abbrev pub add_i128 : ℤ → ℤ → Result ℤ
add_i128 a b = checked_i128 (a +ℤ b)

abbrev pub sub_i128 : ℤ → ℤ → Result ℤ
sub_i128 a b = checked_i128 (a -ℤ b)

abbrev pub mul_i128 : ℤ → ℤ → Result ℤ
mul_i128 a b = checked_i128 (a *ℤ b)

unfoldable pub checked_u32 : ℕ → Result ℕ
checked_u32 n = if leb n u32_max then ok n else panic "overflow"

-- What holds of the value, if there is one.
abbrev pub Post {ℓ κ} : {A : Type ℓ} → Result A → (A → Type κ) → Type κ
Post (ok a) Q = Q a
Post (panic e) Q = Unit

pub Post-bind {ℓ κ μ} :
    {A : Type ℓ} {B : Type κ} (Q : B → Type μ) (m : Result A) (f : A → Result B)
    → ((a : A) → m ≡ ok a → Post (f a) Q)
    → Post (m >>= f) Q
Post-bind Q (ok a) f h = h a refl
Post-bind Q (panic e) f h = tt

pub Post-panic_if {ℓ κ} :
    {B : Type ℓ} (Q : B → Type κ) (b : Bool) (e : String) (k : Result B)
    → (b ≡ false → Post k Q)
    → Post (panic_if b e >> k) Q
unfolding panic_if
Post-panic_if Q true e k h = tt
Post-panic_if Q false e k h = h refl

pub Post-panic_if_last {ℓ} :
    (Q : Type ℓ) (b : Bool) (e : String) → (b ≡ false → Q) → Post (panic_if b e) (λ _. Q)
unfolding panic_if
Post-panic_if_last Q true e h = tt
Post-panic_if_last Q false e h = h refl

-- A value that a call returned has what is known of every value that it returns.
pub Post-ok {ℓ κ} : {A : Type ℓ} (Q : A → Type κ) {m : Result A} {a : A} → m ≡ ok a → Post m Q → Q a
Post-ok Q e h = rw e at h

-- A checked operation that does not panic has the exact value.
pub Post-checked {ℓ κ} :
    {B : Type ℓ} (Q : B → Type κ) (a : ℤ) (f : ℤ → Result B)
    → (in_i128 a ≡ true → Post (f a) Q)
    → Post (checked_i128 a >>= f) Q
unfolding checked_i128
Post-checked Q a f h = elim (Bool-cases (in_i128 a)) [
  | inl inside ↦ rw inside (h inside)
  | inr outside ↦ rw outside tt
]

pub Post-checked_last {ℓ} :
    (Q : ℤ → Type ℓ) (a : ℤ) → (in_i128 a ≡ true → Q a) → Post (checked_i128 a) Q
unfolding checked_i128
Post-checked_last Q a h = elim (Bool-cases (in_i128 a)) [
  | inl inside ↦ rw inside (h inside)
  | inr outside ↦ rw outside tt
]

pub Post-checked_u32 {ℓ κ} :
    {B : Type ℓ} (Q : B → Type κ) (n : ℕ) (f : ℕ → Result B)
    → (leb n u32_max ≡ true → Post (f n) Q)
    → Post (checked_u32 n >>= f) Q
unfolding checked_u32
Post-checked_u32 Q n f h = elim (Bool-cases (leb n u32_max)) [
  | inl inside ↦ rw inside (h inside)
  | inr outside ↦ rw outside tt
]

-- Both branches of a conditional.
pub Post-if {ℓ κ} :
    {A : Type ℓ} (Q : A → Type κ) (b : Bool) (m n : Result A)
    → (b ≡ true → Post m Q)
    → (b ≡ false → Post n Q)
    → Post (if b then m else n) Q
Post-if Q true m n h k = h refl
Post-if Q false m n h k = k refl

pub Post-mono {ℓ κ μ} :
    {A : Type ℓ} {P : A → Type κ} (Q : A → Type μ) (m : Result A)
    → ((a : A) → P a → Q a)
    → Post m P
    → Post m Q
Post-mono Q (ok a) h p = h a p
Post-mono Q (panic e) h p = tt

pub Post-both {ℓ κ μ} :
    {A : Type ℓ} (P : A → Type κ) (Q : A → Type μ) (m : Result A)
    → Post m P
    → Post m Q
    → Post m (λ a. P a × Q a)
Post-both P Q (ok a) h k = (h, k)
Post-both P Q (panic e) h k = tt

-- What follows from a condition holds of every value where the condition does.
pub Post-given {ℓ κ μ} :
    {A : Type ℓ} (P : Type κ) (Q : A → Type μ) (m : Result A)
    → (P → Post m Q)
    → Post m (λ a. P → Q a)
Post-given P Q (ok a) h = h
Post-given P Q (panic e) h = tt

-- The computation does not panic.
abbrev pub Returns {ℓ} : {A : Type ℓ} → Result A → Type ℓ
Returns {A = A} m = (a : A) × (m ≡ ok a)

pub Returns-bind {ℓ κ} :
    {A : Type ℓ} {B : Type κ} (m : Result A) (f : A → Result B)
    → Returns m
    → ((a : A) → m ≡ ok a → Returns (f a))
    → Returns (m >>= f)
Returns-bind m f (a, e) h = rw e (h a e)

pub Returns-checked {ℓ} :
    {B : Type ℓ} (a : ℤ) (f : ℤ → Result B)
    → in_i128 a ≡ true
    → Returns (f a)
    → Returns (checked_i128 a >>= f)
unfolding checked_i128
Returns-checked a f h r = rw h r

-- With no panic, what holds of the value if there is one holds.
pub Returns-Post {ℓ κ} :
    {A : Type ℓ} (Q : A → Type κ) (m : Result A) → Returns m → Post m Q → (a : A) × (m ≡ ok a) × Q a
Returns-Post Q m (a, e) p = (a, e, Post-ok Q e p)

pub Returns-checked_last : (a : ℤ) → in_i128 a ≡ true → Returns (checked_i128 a)
unfolding checked_i128
Returns-checked_last a h = rw h (a, refl)

-- The computation returns a value, and `Q` holds of it.
abbrev pub Ensures {ℓ κ} : {A : Type ℓ} → Result A → (A → Type κ) → Type (ℓ ⊔ κ)
Ensures {A = A} m Q = (a : A) × (m ≡ ok a) × Q a

pub Ensures-bind {ℓ κ μ ν} :
    {A : Type ℓ} {B : Type κ} {P : A → Type μ} (Q : B → Type ν) (m : Result A) (f : A → Result B)
    → Ensures m P
    → ((a : A) → P a → Ensures (f a) Q)
    → Ensures (m >>= f) Q
Ensures-bind Q m f (a, e, p) h = rw e (h a p)

pub Ensures-checked {ℓ κ} :
    {B : Type ℓ} (Q : B → Type κ) (a : ℤ) (f : ℤ → Result B)
    → in_i128 a ≡ true
    → Ensures (f a) Q
    → Ensures (checked_i128 a >>= f) Q
unfolding checked_i128
Ensures-checked Q a f h r = rw h r

pub Ensures-Post {ℓ κ} : {A : Type ℓ} (Q : A → Type κ) (m : Result A) → Ensures m Q → Post m Q
Ensures-Post Q m (a, e, q) = rw e q

-- What holds anyway holds of every value.
pub Post-any {ℓ κ} : {A : Type ℓ} {P : Type κ} (m : Result A) → P → Post m (λ _. P)
Post-any (ok a) p = p
Post-any (panic e) p = tt

-- The computation panics.
abbrev pub Fails {ℓ} : {A : Type ℓ} → Result A → Type ℓ
Fails m = (e : String) × (m ≡ panic e)

-- A step before, that goes through or panics, leaves a computation that panics.
pub Fails-bind {ℓ κ} :
    {A : Type ℓ} {B : Type κ} (m : Result A) (f : A → Result B)
    → ((a : A) → m ≡ ok a → Fails (f a))
    → Fails (m >>= f)
Fails-bind (ok a) f h = h a refl
Fails-bind (panic e) f h = (e, refl)
