-- ===== src/Socket/OnOk.antt =====
-- What holds of the value that a run of src/socket.rs gives, if it gives one.
use rfs_utp.Common.{◌≡◌, refl, ok, err, panic, hang, ◌>>=◌, Option, none, some, inl, inr, ◌⊎◌}
use mathlib.Core.Path.{subst}
use rfs_utp.Socket.Handle.{Run}
use rfs_utp.Socket.Peers.{Offer, offer_taken, offer_closed, offer_full}

-- What holds of the value of a run, if it gives one.
abbrev pub OnOk : {A : Type 0} → (A → Type 0) → Run A → Type 0
OnOk P (ok a) = P a
OnOk P (err e) = Unit {0}
OnOk P panic = Unit {0}
OnOk P hang = Unit {0}

pub OnOk-anything : {A : Type 0} (m : Run A) → OnOk (λ a. Unit {0}) m
OnOk-anything (ok a) = tt
OnOk-anything (err e) = tt
OnOk-anything panic = tt
OnOk-anything hang = tt

pub OnOk-bind :
    {A B : Type 0} (Q : A → Type 0) (P : B → Type 0) (m : Run A) (f : A → Run B)
    → OnOk Q m
    → ((a : A) → Q a → OnOk P (f a))
    → OnOk P (m >>= f)
OnOk-bind Q P (ok a) f h k = k a h
OnOk-bind Q P (err e) f h k = tt
OnOk-bind Q P panic f h k = tt
OnOk-bind Q P hang f h k = tt

-- A bind whose first part says nothing of the state.
pub OnOk-skip :
    {A B : Type 0} (P : B → Type 0) (m : Run A) (f : A → Run B)
    → ((a : A) → OnOk P (f a))
    → OnOk P (m >>= f)
OnOk-skip P m f k = OnOk-bind (λ a. Unit {0}) P m f (OnOk-anything m) (λ a u. k a)

pub OnOk-eq : {A : Type 0} (P : A → Type 0) (m : Run A) (a : A) → OnOk P m → m ≡ ok a → P a
OnOk-eq P m a h e = subst (OnOk P) e h

pub OnOk-of_eq : {A : Type 0} (P : A → Type 0) (m : Run A) → ((a : A) → m ≡ ok a → P a) → OnOk P m
OnOk-of_eq P (ok a) k = k a refl
OnOk-of_eq P (err e) k = tt
OnOk-of_eq P panic k = tt
OnOk-of_eq P hang k = tt

pub Offer-cases : (o : Offer) → (o ≡ offer_taken) ⊎ (o ≡ offer_closed) ⊎ (o ≡ offer_full)
Offer-cases offer_taken = inl refl
Offer-cases offer_closed = inr (inl refl)
Offer-cases offer_full = inr (inr refl)

pub Option-cases {ℓ} : {A : Type ℓ} (o : Option A) → (o ≡ none) ⊎ ((a : A) × (o ≡ some a))
Option-cases none = inl refl
Option-cases (some a) = inr (a, refl)
