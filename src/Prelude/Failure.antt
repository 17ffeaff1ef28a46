-- ===== src/Prelude/Failure.antt =====
-- Functions that may fail: a value, or an error of the type that the component declares.
use mathlib.Core.Path.{◌≡◌, refl}
use mathlib.Core.Logic.{◌⊎◌, inl, inr}
use mathlib.Core.Bool.{Bool, true, false}
use mathlib.Core.Option.{Option, none, some}

pub data Fallible {ℓ} (E : Type 0) (A : Type ℓ) : Type ℓ where
  err : E → Fallible E A
  ok : A → Fallible E A

infixl 5 ◌>>=◌ ◌>>◌
-- The `?` operator: the rest runs on the value, and an error goes out as it is.
abbrev pub ◌>>=◌ {ℓ κ} :
    {E : Type 0} {A : Type κ} {B : Type ℓ} → Fallible E A → (A → Fallible E B) → Fallible E B
err why >>= rest = err why
ok value >>= rest = rest value

abbrev pub ◌>>◌ {ℓ} :
    {E : Type 0} {B : Type ℓ} → Fallible E (Unit {0}) → Fallible E B → Fallible E B
step >> rest = step >>= λ done. rest

module _ {ℓ} {E : Type 0} {B : Type ℓ} where
  -- A chain that succeeds went through the value of its first step.
  pub >>=-eq-ok {κ} :
      {A : Type κ} (step : Fallible E A) (rest : A → Fallible E B) {value : B}
      → (step >>= rest) ≡ ok value
      → (mid : A) × (step ≡ ok mid) × (rest mid ≡ ok value)
  >>=-eq-ok (err why) rest p = cc
  >>=-eq-ok (ok mid) rest p = (mid, refl, p)

  pub >>-eq-ok :
      (step : Fallible E (Unit {0})) (rest : Fallible E B) {value : B}
      → (step >> rest) ≡ ok value
      → (step ≡ ok tt) × (rest ≡ ok value)
  >>-eq-ok (err why) rest p = cc
  >>-eq-ok (ok tt) rest p = (refl, p)

  pub Fallible-cases :
      (m : Fallible E B) → ((value : B) × (m ≡ ok value)) ⊎ ((why : E) × (m ≡ err why))
  Fallible-cases (err why) = inr (why, refl)
  Fallible-cases (ok value) = inl (value, refl)

  abbrev pub ok_or : Option B → E → Fallible E B
  ok_or (some value) why = ok value
  ok_or none why = err why

-- `if test { return Err(why) }`
abbrev pub refuse_if : {E : Type 0} → Bool → E → Fallible E (Unit {0})
refuse_if false why = ok tt
refuse_if true why = err why

-- A chain that succeeds passed its test.
pub refuse_if-eq-ok {ℓ} :
    {E : Type 0} {B : Type ℓ} (test : Bool) (why : E) (rest : Fallible E B) {value : B}
    → (refuse_if test why >> rest) ≡ ok value
    → (test ≡ false) × (rest ≡ ok value)
refuse_if-eq-ok false why rest h = (refl, h)
refuse_if-eq-ok true why rest h = absurd cc

-- A chain that succeeds had its optional value.
pub ok_or-eq-ok {ℓ κ} :
    {E : Type 0} {A : Type κ} {B : Type ℓ} (o : Option A) (why : E) (rest : A → Fallible E B)
    {value : B}
    → (ok_or o why >>= rest) ≡ ok value
    → (a : A) × (o ≡ some a) × (rest a ≡ ok value)
ok_or-eq-ok (some a) why rest h = (a, refl, h)
ok_or-eq-ok none why rest h = absurd cc
