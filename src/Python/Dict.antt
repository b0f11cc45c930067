-- ===== src/Python/Dict.antt =====
-- Python's `dict`: keys in the order of their first insertion; a set by its members.
use bacnet_profile_example_b.Base.{
  Bool, true, false, All, Bool-cases, inl, inr, sym, subst, Option, none, some, List, [], ◌∷◌, ◌≡◌,
  refl, ◌||◌, arith, if◌then◌else◌,
}
use bacnet_profile_example_b.Base.Eq.{Eq}

abbrev pub Dict {ℓ κ} : Type ℓ → Type κ → Type (ℓ ⊔ κ)
Dict K V = List (K × V)

module _ {ℓ κ} {K : Type ℓ} {V : Type κ} ⦃e : Eq K⦄ where
  -- `d.get(key)`
  unfoldable pub get : Dict K V → K → Option V
  get [] key = none
  get ((k, v) ∷ d) key = if e.beq k key then some v else get d key

  -- `d[key] = value`: a key that is there keeps its place.
  unfoldable pub put : Dict K V → K → V → Dict K V
  put [] key value = (key, value) ∷ []
  put ((k, v) ∷ d) key value = if e.beq k key then (k, value) ∷ d else (k, v) ∷ put d key value

  -- Reading after a write, at any key.
  pub get-put :
      (d : Dict K V) (key other : K) (value : V)
      → get (put d key value) other ≡ (if e.beq key other then some value else get d other)
  unfolding get put
  get-put [] key other value = refl
  get-put ((k, v) ∷ d) key other value =
      ground
        (arith, e.beq_iff k key, e.beq_iff k other, e.beq_iff key other, get-put d key other value)

  pub get-put_same : (d : Dict K V) (key : K) (v : V) → get (put d key v) key ≡ some v
  get-put_same d key v =
      let here : e.beq key key ≡ true = (e.beq_iff key key).1 refl in
      rw (get-put d key key v, here) refl

  -- The second of two writes is what stays.
  pub put-put : (d : Dict K V) (key : K) (v w : V) → put (put d key v) key w ≡ put d key w
  unfolding put
  put-put [] key v w = let here : e.beq key key ≡ true = (e.beq_iff key key).1 refl in rw here refl
  put-put ((k, u) ∷ d) key v w = elim (Bool-cases (e.beq k key)) [
    | inl same ↦ rw (same, same) refl
    | inr other ↦ rw (other, other, put-put d key v w) refl
  ]

  pub All-put {κ'} :
      (P : K × V → Type κ') (d : Dict K V) (key : K) (v : V)
      → All P d
      → P (key, v)
      → All P (put d key v)
  unfolding put
  All-put P [] key v all new = (new, tt)
  All-put P ((k, u) ∷ d) key v (first, all) new = elim (Bool-cases (e.beq k key)) [
    | inl same ↦
        let at : key ≡ k = sym ((e.beq_iff k key).0 same) in
        rw same (subst (λ x. P (x, v)) at new, all)
    | inr other ↦ rw other (first, All-put P d key v all new)
  ]

module _ {ℓ} {K : Type ℓ} ⦃e : Eq K⦄ where
  -- `key in s`
  unfoldable pub member : List K → K → Bool
  member [] key = false
  member (k ∷ s) key = e.beq k key || member s key
