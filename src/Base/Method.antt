-- ===== src/Base/Method.antt =====
-- A method on mutable state that may fail. An error leaves the state as the failing call left it:
-- nothing is rolled back.
use mathlib.Core.Path.{◌≡◌, refl}
use stunner.Base.Result.{Error, Result, ok, err}

pub data Outcome {ℓ κ} (S : Type ℓ) (A : Type κ) : Type (ℓ ⊔ κ) where
  done : A → S → Outcome S A
  failed : Error → S → Outcome S A

abbrev pub Method {ℓ κ} : Type ℓ → Type κ → Type (ℓ ⊔ κ)
Method S A = S → Outcome S A

infixl 5 ◌>>=◌ ◌>>◌
abbrev pub ◌>>=◌ {ℓ κ μ} :
    {S : Type ℓ} {A : Type κ} {B : Type μ} → Method S A → (A → Method S B) → Method S B
◌>>=◌ m f s = elim (m s) [ done a t ↦ f a t | failed e t ↦ failed e t ]

abbrev pub ◌>>◌ {ℓ κ} : {S : Type ℓ} {B : Type κ} → Method S (Unit {0}) → Method S B → Method S B
m >> k = m >>= λ _. k

abbrev pub return {ℓ κ} : {S : Type ℓ} {A : Type κ} → A → Method S A
return a s = done a s

abbrev pub get {ℓ} : {S : Type ℓ} → Method S S
get s = done s s

abbrev pub modify {ℓ} : {S : Type ℓ} → (S → S) → Method S (Unit {0})
modify f s = done tt (f s)

-- A call that does not touch the state.
abbrev pub lift {ℓ κ} : {S : Type ℓ} {A : Type κ} → Result A → Method S A
lift (ok a) s = done a s
lift (err e) s = failed e s

abbrev pub state_of {ℓ κ} : {S : Type ℓ} {A : Type κ} → Outcome S A → S
state_of (done a s) = s
state_of (failed e s) = s

abbrev pub result_of {ℓ κ} : {S : Type ℓ} {A : Type κ} → Outcome S A → Result A
result_of (done a s) = ok a
result_of (failed e s) = err e

-- A bind whose first part is known.
module _ {ℓ κ μ} {S : Type ℓ} {A : Type κ} {B : Type μ} where
  pub >>=-done :
      (m : Method S A) (f : A → Method S B) {s t : S} {a : A} → m s ≡ done a t → (m >>= f) s ≡ f a t
  >>=-done m f e = rw (e, ◌>>=◌)

  pub >>=-failed :
      (m : Method S A) (f : A → Method S B) {s t : S} {e : Error}
      → m s ≡ failed e t
      → (m >>= f) s ≡ failed e t
  >>=-failed m f h = rw (h, ◌>>=◌)

-- Inversion: a bind that succeeds, and a call that does not touch the state.
pub >>=-done_inv {ℓ κ μ} :
    {S : Type ℓ} {A : Type κ} {B : Type μ} (o : Outcome S A) (f : A → Method S B) {b : B} {u : S}
    → elim o [ done a t ↦ f a t | failed e t ↦ failed e t ] ≡ done b u
    → (a : A) × (t : S) × (o ≡ done a t) × (f a t ≡ done b u)
>>=-done_inv (done a t) f h = (a, t, refl, h)
>>=-done_inv (failed e t) f h = absurd (cc)

pub lift-done_inv {ℓ κ} :
    {S : Type ℓ} {A : Type κ} (r : Result A) (s : S) {a : A} {t : S}
    → lift r s ≡ done a t
    → (r ≡ ok a) × (s ≡ t)
lift-done_inv (ok x) s h = (cc, cc)
lift-done_inv (err e) s h = absurd (cc)
