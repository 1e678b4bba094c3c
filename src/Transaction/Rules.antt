-- ===== src/Transaction/Rules.antt =====
-- One rule for each way to begin an action: what holds of every outcome holds of the whole.
use mytenancyplus.Prelude.{◌≡◌, refl, Bool, true, false, Option, none, some}
use mytenancyplus.Transaction.{
  AsyncSession, Action, Result, ok, err, Exception, or_raise, raise_if, continue,
}

module _ {A B : Type 0} (P : Result B × AsyncSession → Type 0) where
  pub or_raise_rule :
      (o : Option A) (e : Exception) (f : A → Action B) (s : AsyncSession)
      → (o ≡ none → P (err e, s))
      → ((a : A) → o ≡ some a → P (f a s))
      → P (continue f (or_raise o e s))
  or_raise_rule none e f s refused passed = refused refl
  or_raise_rule (some a) e f s refused passed = passed a refl

module _ {B : Type 0} (P : Result B × AsyncSession → Type 0) where
  pub raise_if_rule :
      (b : Bool) (e : Exception) (m : Action B) (s : AsyncSession)
      → (b ≡ true → P (err e, s))
      → (b ≡ false → P (m s))
      → P (continue (λ (_ : Unit {0}). m) (raise_if b e s))
  raise_if_rule true e m s refused passed = refused refl
  raise_if_rule false e m s refused passed = passed refl

module _ {A B : Type 0} (P : Result B × AsyncSession → Type 0) where
  pub lift_rule :
      (r : Result A) (f : A → Action B) (s : AsyncSession)
      → ((e : Exception) → r ≡ err e → P (err e, s))
      → ((a : A) → r ≡ ok a → P (f a s))
      → P (continue f (r, s))
  lift_rule (ok a) f s refused passed = passed a refl
  lift_rule (err e) f s refused passed = refused e refl

pub ok_injective : {A : Type 0} {a b : A} → ok a ≡ ok b → a ≡ b
ok_injective h = cc
