-- ===== src/Python/Ends.antt =====
-- Total postconditions: the call returns a value with a property, or raises one of some exceptions.
-- A result that is `out_of_fuel` has no such postcondition.
use bacnet_profile_example_b.Base.{Bool, true, false, ◌≡◌, ◌≢◌, refl, subst, if◌then◌else◌}
use bacnet_profile_example_b.Python.{
  Result, Exception, ok, raised, out_of_fuel, index_error, struct_error, value_error, ◌>>=◌,
}

pub data Ends {ℓ κ} {A : Type ℓ} (P : A → Type κ) (E : Exception → Type 0)
    : Result A → Type (ℓ ⊔ κ) where
  returns : {a : A} → P a → Ends P E (ok a)
  raises : {e : Exception} → E e → Ends P E (raised e)

-- The exceptions of reading malformed octets.
abbrev pub Malformed : Exception → Type 0
Malformed index_error = Unit {0}
Malformed struct_error = Unit {0}
Malformed value_error = Unit {0}
Malformed _ = ⊥

module _ {ℓ κ} {A : Type ℓ} {P : A → Type κ} {E : Exception → Type 0} where
  pub Ends-ok : {r : Result A} {a : A} → Ends P E r → r ≡ ok a → P a
  Ends-ok (returns h) e = subst P (cc) h
  Ends-ok (raises h) e = cc

  pub Ends-out_of_fuel : {r : Result A} → Ends P E r → r ≢ out_of_fuel
  Ends-out_of_fuel (returns h) = cc
  Ends-out_of_fuel (raises h) = cc

  pub Ends-if :
      (b : Bool) {x y : Result A}
      → (b ≡ true → Ends P E x)
      → (b ≡ false → Ends P E y)
      → Ends P E (if b then x else y)
  Ends-if true hx hy = hx refl
  Ends-if false hx hy = hy refl

  pub Ends-weaken {κ'} :
      {Q : A → Type κ'} {r : Result A} → Ends P E r → ((a : A) → P a → Q a) → Ends Q E r
  Ends-weaken (returns {a} h) k = returns (k a h)
  Ends-weaken (raises h) k = raises h

  pub Ends-bind {ℓ' κ'} :
      {B : Type ℓ'} {Q : B → Type κ'} {r : Result A} {f : A → Result B}
      → Ends P E r
      → ((a : A) → r ≡ ok a → P a → Ends Q E (f a))
      → Ends Q E (r >>= f)
  Ends-bind (returns {a} h) k = k a refl h
  Ends-bind (raises h) k = raises h

-- The same postcondition, with more exceptions.
pub Ends-raising {ℓ κ} :
    {A : Type ℓ} {P : A → Type κ} {E E' : Exception → Type 0} {r : Result A}
    → Ends P E r
    → ((e : Exception) → E e → E' e)
    → Ends P E' r
Ends-raising (returns h) k = returns h
Ends-raising (raises {e} h) k = raises (k e h)
