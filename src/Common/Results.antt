-- ===== src/Common/Results.antt =====
-- What a run of the code gives: a value, an error value, a panic, or no end.
-- `hang` is no Rust value: a loop of the model is out of fuel.
use mathlib.Core.Path.{◌≡◌, refl}
use mathlib.Core.Logic.{◌≢◌}

pub data Result {ℓ κ} (E : Type ℓ) (A : Type κ) : Type (ℓ ⊔ κ) where
  ok : A → Result E A
  err : E → Result E A
  panic : Result E A
  hang : Result E A

infixl 5 ◌>>=◌
abbrev pub ◌>>=◌ {ℓ κ μ} :
    {E : Type ℓ} {A : Type κ} {B : Type μ} → Result E A → (A → Result E B) → Result E B
ok a >>= f = f a
err e >>= f = err e
panic >>= f = panic
hang >>= f = hang

-- Inversion of a bind that succeeds.
pub >>=-eq-ok {ℓ κ μ} :
    {E : Type ℓ} {A : Type κ} {B : Type μ} (run : Result E A) (next : A → Result E B) {out : B}
    → (run >>= next) ≡ ok out
    → (value : A) × (run ≡ ok value) × (next value ≡ ok out)
>>=-eq-ok (ok value) next e = (value, refl, e)
>>=-eq-ok (err _) next e = cc
>>=-eq-ok panic next e = cc
>>=-eq-ok hang next e = cc

pub >>=-assoc {ℓ κ μ ν} :
    {E : Type ℓ} {A : Type κ} {B : Type μ} {C : Type ν} (m : Result E A) (f : A → Result E B)
    (g : B → Result E C)
    → (m >>= f >>= g) ≡ (m >>= λ a. f a >>= g)
>>=-assoc (ok a) f g = refl
>>=-assoc (err e) f g = refl
>>=-assoc panic f g = refl
>>=-assoc hang f g = refl

-- A run that ends, in a value or an error: it does not panic, and no loop runs out of fuel.
abbrev pub Ends {ℓ κ} : {E : Type ℓ} {A : Type κ} → Result E A → Type (ℓ ⊔ κ)
Ends r = (r ≢ panic) × (r ≢ hang)

pub >>=-Ends {ℓ κ μ} :
    {E : Type ℓ} {A : Type κ} {B : Type μ} (m : Result E A) (f : A → Result E B)
    → Ends m
    → ((a : A) → m ≡ ok a → Ends (f a))
    → Ends (m >>= f)
>>=-Ends (ok a) f h k = k a refl
>>=-Ends (err e) f h k = (λ p. cc, λ p. cc)
>>=-Ends panic f h k = absurd (h.0 refl)
>>=-Ends hang f h k = absurd (h.1 refl)

-- A run with what it gives.
pub data Seen {ℓ κ} {E : Type ℓ} {A : Type κ} (r : Result E A) : Type (ℓ ⊔ κ) where
  gives : (a : A) → r ≡ ok a → Seen r
  fails : (e : E) → r ≡ err e → Seen r
  panics : r ≡ panic → Seen r
  hangs : r ≡ hang → Seen r

pub seen {ℓ κ} : {E : Type ℓ} {A : Type κ} (r : Result E A) → Seen r
seen (ok a) = gives a refl
seen (err e) = fails e refl
seen panic = panics refl
seen hang = hangs refl
