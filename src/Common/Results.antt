-- ===== src/Common/Results.antt =====
-- corefs-core/src/error.rs, and operations on `&mut self` that may fail. The diagnostic text that
-- each variant of `CoreFsError` carries is not modelled.

use mathlib.Core.Path.{◌≡◌, refl, ap, ◌∙◌}

pub data CoreFsError : Type 0 where
  already_exists invalid_command invalid_input not_found policy_violation state : CoreFsError

-- `CoreFsResult<T>`
pub data CoreFsResult {ℓ} (A : Type ℓ) : Type ℓ where
  ok : A → CoreFsResult A
  err : CoreFsError → CoreFsResult A

-- A method on `&mut self`: what it returns and the state that it leaves, on an error too.
abbrev pub Method {ℓ κ} : Type ℓ → Type κ → Type (ℓ ⊔ κ)
Method S A = S → CoreFsResult A × S

infixl 5 ◌>>=◌ ◌>>◌
abbrev pub ◌>>=◌ {ℓ κ μ} :
    {S : Type ℓ} {A : Type κ} {B : Type μ} → Method S A → (A → Method S B) → Method S B
◌>>=◌ m f s = let (r, s') = m s in elim r [ ok a ↦ f a s' | err e ↦ (err e, s') ]

-- A sequence whose first part returned goes on from its state.
pub >>=-ok {ℓ κ μ} :
    {S : Type ℓ} {A : Type κ} {B : Type μ} (m : Method S A) (f : A → Method S B) (s : S) {a : A}
    {s' : S}
    → m s ≡ (ok a, s')
    → (m >>= f) s ≡ f a s'
>>=-ok {B} m f s e = ap (λ x. let (r, t) = x in elim r [ ok a ↦ f a t | err e ↦ (err e, t) ]) e

-- A sequence whose first part failed fails with its error and state.
pub >>=-err {ℓ κ μ} :
    {S : Type ℓ} {A : Type κ} {B : Type μ} (m : Method S A) (f : A → Method S B) (s : S)
    {e : CoreFsError} {s' : S}
    → m s ≡ (err e, s')
    → (m >>= f) s ≡ (err e, s')
>>=-err m f s e = ap (λ x. let (r, t) = x in elim r [ ok a ↦ f a t | err e ↦ (err e, t) ]) e

abbrev pub ◌>>◌ {ℓ κ} : {S : Type ℓ} {B : Type κ} → Method S (Unit {0}) → Method S B → Method S B
m >> k = m >>= λ _. k

abbrev pub pure {ℓ κ} : {S : Type ℓ} {A : Type κ} → A → Method S A
pure a s = (ok a, s)

abbrev pub throw {ℓ κ} : {S : Type ℓ} {A : Type κ} → CoreFsError → Method S A
throw e s = (err e, s)

-- The `?` on the result of a call that leaves the state alone
abbrev pub and_then {ℓ κ} :
    {A : Type ℓ} {B : Type κ} → CoreFsResult A → (A → CoreFsResult B) → CoreFsResult B
and_then r f = elim r [ ok a ↦ f a | err e ↦ err e ]

-- After a call that returned, the rest is what follows from its value.
pub and_then-ok {ℓ κ} :
    {A : Type ℓ} {B : Type κ} (r : CoreFsResult A) (f : A → CoreFsResult B) {a : A}
    {b : CoreFsResult B}
    → r ≡ ok a
    → f a ≡ b
    → and_then r f ≡ b
and_then-ok r f e after = ap (λ x. and_then x f) e ∙ after

-- A method that returns from a state, with a property of what it returns and leaves.
abbrev pub Returns {ℓ κ μ} :
    {S : Type ℓ} {A : Type κ} → Method S A → S → (A → S → Type μ) → Type (ℓ ⊔ κ ⊔ μ)
Returns {S} {A} m s Q = (a : A) × (s' : S) × (m s ≡ (ok a, s')) × Q a s'

-- A sequence returns where each part does.
pub Returns->>= {ℓ κ μ ν π} :
    {S : Type ℓ} {A : Type κ} {B : Type μ} {P : A → S → Type ν} {Q : B → S → Type π}
    (m : Method S A) (f : A → Method S B) (s : S)
    → Returns m s P
    → ((a : A) (s' : S) → P a s' → Returns (f a) s' Q)
    → Returns (m >>= f) s Q
Returns->>= m f s (a, s', e, p) next =
    let (b, t, e', q) = next a s' p in (b, t, >>=-ok m f s e ∙ e', q)

-- A sequence returns where its first part is known to return and the rest does.
pub Returns-after {ℓ κ μ π} :
    {S : Type ℓ} {A : Type κ} {B : Type μ} {Q : B → S → Type π} (m : Method S A)
    (f : A → Method S B) (s : S) {a : A} {s' : S}
    → m s ≡ (ok a, s')
    → Returns (f a) s' Q
    → Returns (m >>= f) s Q
Returns-after m f s e (b, t, e', q) = (b, t, >>=-ok m f s e ∙ e', q)

-- Two sequences that go on alike from whatever the first part returns.
pub >>=-same {ℓ κ μ} :
    {S : Type ℓ} {A : Type κ} {B : Type μ} (m : Method S A) (f g : A → Method S B) (s : S)
    → ((a : A) (s' : S) → m s ≡ (ok a, s') → f a s' ≡ g a s')
    → (m >>= f) s ≡ (m >>= g) s
>>=-same {S} {A} {B} m f g s alike = go (m s) refl
  where
    go :
        (x : CoreFsResult A × S)
        → m s ≡ x
        → elim x.0 as (λ _. CoreFsResult B × S) [ ok a ↦ f a x.1 | err e ↦ (err e, x.1) ]
          ≡ elim x.0 as (λ _. CoreFsResult B × S) [ ok a ↦ g a x.1 | err e ↦ (err e, x.1) ]
    go (ok a, s') e = alike a s' e
    go (err e, s') _ = refl

-- What holds of every error and of what follows a call that returned holds of the whole.
pub and_then-all {ℓ κ μ} :
    {A : Type ℓ} {B : Type κ} (P : CoreFsResult B → Type μ) (r : CoreFsResult A)
    (f : A → CoreFsResult B)
    → ((e : CoreFsError) → P (err e))
    → ((a : A) → r ≡ ok a → P (f a))
    → P (and_then r f)
and_then-all P (ok a) f failed next = next a refl
and_then-all P (err e) f failed next = failed e
