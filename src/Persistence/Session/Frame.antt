-- ===== src/Persistence/Session/Frame.antt =====
-- What a sequence of steps on the database leaves alone, and what must have returned for the whole
-- to return.
use mathlib.Core.Path.{subst}
use hibiki.Prelude.{◌≡◌, refl, ap, ◌∙◌, Bool, true, false, Option, none, some, arith}
use hibiki.Domain.Errors.{DomainError, Result, ok, err, ErrorClass, Code}
use hibiki.Persistence.Models.{Store}
use hibiki.Persistence.Session.{
  M, Step, done, raised, ◌>>=◌, pure, gets, modify, lift, fail, fail_if, require,
}

step-done {ℓ κ} :
    {A : Type ℓ} {B : Type κ} (x : Step A) (f : A → M B) (b : B) (s' : Store)
    → elim x [ done a s1 ↦ f a s1 | raised e s1 ↦ raised e s1 ] ≡ done b s'
    → (a : A) × (s1 : Store) × (x ≡ done a s1) × (f a s1 ≡ done b s')
step-done (done a s1) f b s' h = (a, s1, refl, h)
step-done (raised e s1) f b s' h = ground arith

-- A sequence that returns has a first part that returns.
pub bind-done {ℓ κ} :
    {A : Type ℓ} {B : Type κ} (m : M A) (f : A → M B) (s : Store) (b : B) (s' : Store)
    → (m >>= f) s ≡ done b s'
    → (a : A) × (s1 : Store) × (m s ≡ done a s1) × (f a s1 ≡ done b s')
bind-done m f s b s' h = step-done (m s) f b s' h

pub bind-eq {ℓ κ} :
    {A : Type ℓ} {B : Type κ} (m : M A) (f : A → M B) (s : Store) (a : A) (s1 : Store)
    → m s ≡ done a s1
    → (m >>= f) s ≡ f a s1
bind-eq m f s a s1 e = ap (λ x. elim x [ done a s1 ↦ f a s1 | raised e s1 ↦ raised e s1 ]) e

pub bind-raised {ℓ κ} :
    {A : Type ℓ} {B : Type κ} (m : M A) (f : A → M B) (s : Store) (x : DomainError) (s1 : Store)
    → m s ≡ raised x s1
    → (m >>= f) s ≡ raised x s1
bind-raised m f s x s1 e = ap (λ y. elim y [ done a s1 ↦ f a s1 | raised e s1 ↦ raised e s1 ]) e

-- The steps leave what `g` reads as it was, if they return.
abbrev pub Keeps {ℓ κ} : {A : Type ℓ} {B : Type κ} → (Store → B) → M A → Type (ℓ ⊔ κ)
Keeps {A = A} g m = (s : Store) (a : A) (s' : Store) → m s ≡ done a s' → g s' ≡ g s

module _ {ℓ κ μ} {A : Type ℓ} {B : Type κ} {C : Type μ} where
  pub bind-Keeps :
      (g : Store → C) (m : M A) (f : A → M B)
      → Keeps g m
      → ((a : A) → Keeps g (f a))
      → Keeps g (m >>= f)
  bind-Keeps g m f km kf s b s' h =
      let (a, s1, e, r) = bind-done m f s b s' h in kf a s1 b s' r ∙ km s a s1 e

module _ {ℓ μ} {A : Type ℓ} {C : Type μ} where
  pub gets-Keeps : (g : Store → C) (f : Store → A) → Keeps g (gets f)
  gets-Keeps g f s a s' h = ground arith

  pub pure-Keeps : (g : Store → C) (a : A) → Keeps g (pure a)
  pure-Keeps g a s b s' h = ground arith

  pub fail-Keeps : (g : Store → C) (c : ErrorClass) (k : Code) → Keeps g (fail {A = A} c k)
  fail-Keeps g c k s a s' h = ground arith

  pub require-Keeps :
      (g : Store → C) (o : Option A) (c : ErrorClass) (k : Code) → Keeps g (require o c k)
  require-Keeps g none c k = fail-Keeps g c k
  require-Keeps g (some a) c k = pure-Keeps g a

  pub lift-Keeps : (g : Store → C) (x : Result A) → Keeps g (lift x)
  lift-Keeps g (ok a) s b s' h = ground arith
  lift-Keeps g (err e) s b s' h = ground arith

module _ {μ} {C : Type μ} where
  pub fail_if-Keeps :
      (g : Store → C) (b : Bool) (c : ErrorClass) (k : Code) → Keeps g (fail_if b c k)
  fail_if-Keeps g true c k s a s' h = ground arith
  fail_if-Keeps g false c k s a s' h = ground arith

  pub modify-Keeps :
      (g : Store → C) (f : Store → Store) → ((s : Store) → g (f s) ≡ g s) → Keeps g (modify f)
  modify-Keeps g f k s a s' h = ground (arith, k s)

-- What holds of the value and the database if the steps return.
abbrev pub Ensures {ℓ} : {A : Type ℓ} → (A → Store → Type 0) → Step A → Type 0
Ensures p (done a s) = p a s
Ensures p (raised e s) = Unit

step-Ensures {ℓ κ} :
    {A : Type ℓ} {B : Type κ} (p : B → Store → Type 0) (x : Step A) (f : A → M B)
    → ((a : A) (s1 : Store) → x ≡ done a s1 → Ensures p (f a s1))
    → Ensures p (elim x [ done a s1 ↦ f a s1 | raised e s1 ↦ raised e s1 ])
step-Ensures p (done a s1) f k = k a s1 refl
step-Ensures p (raised e s1) f k = tt

pub bind-Ensures {ℓ κ} :
    {A : Type ℓ} {B : Type κ} (p : B → Store → Type 0) (m : M A) (f : A → M B) (s : Store)
    → ((a : A) (s1 : Store) → m s ≡ done a s1 → Ensures p (f a s1))
    → Ensures p ((m >>= f) s)
bind-Ensures p m f s k = step-Ensures p (m s) f k

pub Ensures-done {ℓ} :
    {A : Type ℓ} (p : A → Store → Type 0) (m : M A) (s : Store) (a : A) (s' : Store)
    → Ensures p (m s)
    → m s ≡ done a s'
    → p a s'
Ensures-done p m s a s' k h = subst (Ensures p) h k

step-ensured {ℓ} :
    {A : Type ℓ} (p : A → Store → Type 0) (x : Step A)
    → ((a : A) (s' : Store) → x ≡ done a s' → p a s')
    → Ensures p x
step-ensured p (done a s') k = k a s' refl
step-ensured p (raised e s') k = tt

pub Ensures-of {ℓ} :
    {A : Type ℓ} (p : A → Store → Type 0) (m : M A) (s : Store)
    → ((a : A) (s' : Store) → m s ≡ done a s' → p a s')
    → Ensures p (m s)
Ensures-of p m s k = step-ensured p (m s) k
