-- ===== src/Prelude/Outcomes.antt =====
-- The results of fallible code: a value, an `anyhow` error by its message, or a panic of the task.
use Prim.Native.String.{String}
use mathlib.Core.Path.{◌≡◌, refl, ap}
use mathlib.Core.Option.{Option, none, some}

pub data Outcome {ℓ} (A : Type ℓ) : Type ℓ where
  ok : A → Outcome A
  err : String → Outcome A
  panic : Outcome A

infixl 5 ◌>>=◌
abbrev pub ◌>>=◌ {ℓ κ} : {A : Type ℓ} {B : Type κ} → Outcome A → (A → Outcome B) → Outcome B
panic >>= k = panic
err message >>= k = err message
ok v >>= k = k v

-- `unwrap` of an option.
abbrev pub unwrap {ℓ} : {A : Type ℓ} → Option A → Outcome A
unwrap none = panic
unwrap (some a) = ok a

-- `?` on an option, whose absence has the message `e`.
abbrev pub ok_or {ℓ} : {A : Type ℓ} → String → Option A → Outcome A
ok_or e none = err e
ok_or e (some a) = ok a

-- Inversion of a successful bind.
pub >>=-eq-ok {ℓ κ} :
    {A : Type ℓ} {B : Type κ} (o : Outcome A) (k : A → Outcome B) {w : B}
    → (o >>= k) ≡ ok w
    → (v : A) × (o ≡ ok v) × (k v ≡ ok w)
>>=-eq-ok panic k e = cc
>>=-eq-ok (err message) k e = cc
>>=-eq-ok (ok v) k e = (v, refl, e)

-- An outcome that is mapped twice.
pub >>=-map_map {ℓ κ μ} :
    {A : Type ℓ} {B : Type κ} {C : Type μ} (x : Outcome A) (g : A → B) (h : B → C)
    → ((x >>= λ a. ok (g a)) >>= λ b. ok (h b)) ≡ (x >>= λ a. ok (h (g a)))
>>=-map_map (ok a) g h = refl
>>=-map_map (err e) g h = refl
>>=-map_map panic g h = refl

pub ok-injective {ℓ} : {A : Type ℓ} {a b : A} → ok a ≡ ok b → a ≡ b
ok-injective e = cc

-- `Option::unwrap_or`.
abbrev pub unwrap_or {ℓ} : {A : Type ℓ} → A → Option A → A
unwrap_or d none = d
unwrap_or d (some a) = a

-- Binds associate.
pub >>=-assoc {ℓ κ μ} :
    {A : Type ℓ} {B : Type κ} {C : Type μ} (x : Outcome A) (g : A → Outcome B) (h : B → Outcome C)
    → ((x >>= g) >>= h) ≡ (x >>= λ a. g a >>= h)
>>=-assoc (ok a) g h = refl
>>=-assoc (err e) g h = refl
>>=-assoc panic g h = refl

pub ok_or-eq-ok {ℓ} :
    {A : Type ℓ} (e : String) (o : Option A) {a : A} → ok_or e o ≡ ok a → o ≡ some a
ok_or-eq-ok e none h = cc
ok_or-eq-ok e (some b) h = ap some (ok-injective h)
