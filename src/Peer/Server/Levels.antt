-- ===== src/Peer/Server/Levels.antt =====
-- What a `SimulatedServer` promises about its values, on its own, and that its writes keep the promise: a
-- commandable object has sixteen levels, each with a value or none, and shows the value of the highest
-- level that has one, or else its default; any other property is what was last written.
pub mod Refines
use bacnet_profile_example_b.Base.{
  ℕ, zero, suc, ◌+◌, ◌<◌, ◌≤◌, Bool, true, false, ◌&&◌, Option, none, some, List, [], ◌∷◌, ◌≡◌,
  refl, sym, ap, ◌∙◌, subst, arith, length, set, All, All-map, Bool-cases, Option-cases, inl, inr,
  ◌==◌, ==_iff, if◌then◌else◌,
}
use bacnet_profile_example_b.Base.Eq.{Eq, nat_eq, pair_eq}
use bacnet_profile_example_b.Python.{Octets, Result, ok, ◌>>=◌}
use bacnet_profile_example_b.Python.Dict.{Dict, get, put, get-put}
use bacnet_profile_example_b.Codec.Constants.{property_present_value}
use bacnet_profile_example_b.Codec.Decode.{ObjectId, WriteRequest}
use bacnet_profile_example_b.Peer.Server.{
  Served, stored, octets_now, octets_if, Server, Properties, Slots, properties_of, served_value,
  is_there, is_object, is_commandable, target, is_commanded, winning, effective, shown,
}
use bacnet_profile_example_b.Peer.Server.Answers.{accept}
use bacnet_profile_example_b.Peer.Server.Priority.{
  Follows, stored_in, get-stored_in, commanded_slots, after_command, priority_of, accept-commanded,
  accept-plain, get-after_command, Follows-target, Follows-other, Follows-plain,
}

-- The abstract state; the levels of an object have the numbers 1 to 16, 1 the highest.
pub record Levels : Type 0 where
  pub has_levels : ObjectId → Bool
  pub level : ObjectId → ℕ → Option Octets
  pub default : ObjectId → Served
  pub property : ObjectId → ℕ → Option Served

abbrev pub same_object : ObjectId → ObjectId → Bool
same_object = (pair_eq {A = ℕ} {B = ℕ}).beq

abbrev pub commands : Levels → WriteRequest → Bool
commands a request =
    a.has_levels (target request) && request.property_identifier == property_present_value

-- A write sets a level, or empties it with a NULL; or it sets a property.
abbrev pub written : Levels → WriteRequest → Bool → Levels
written a request is_null =
    if commands a request
    then record a {
      level = λ object i.
          if same_object (target request) object && i == priority_of request.priority
          then (if is_null then none else some request.value_octets)
          else a.level object i;
    }
    else record a {
      property = λ object p.
          if same_object (target request) object && request.property_identifier == p
          then some (stored request.value_octets)
          else a.property object p;
    }

abbrev pub all_written : Levels → List (WriteRequest × Bool) → Levels
all_written a [] = a
all_written a ((request, is_null) ∷ requests) = all_written (written a request is_null) requests

abbrev or_else : Option Octets → Option Octets → Option Octets
or_else none v = v
or_else (some v) w = some v

-- The first of `n` levels from `k` on that has a value.
unfoldable pub highest : ℕ → ℕ → (ℕ → Option Octets) → Option Octets
highest zero k level = none
highest (suc n) k level = or_else (level k) (highest n (k + 1) level)

abbrev pub value_of : Levels → ℕ → ObjectId → ℕ → Option Octets
value_of a now object p =
    if a.has_levels object && p == property_present_value
    then (octets_now now (shown (highest 16 1 (a.level object)) (a.default object)))
    else octets_if now (a.property object p)

-- The server's writes, one after another.
abbrev pub accept_all : Server → List (WriteRequest × Bool) → Result Server
accept_all s [] = ok s
accept_all s ((request, is_null) ∷ requests) =
    accept s request is_null >>= λ s'. accept_all s' requests

unfoldable pub slots_from : ℕ → ℕ → (ℕ → Option Octets) → Slots
slots_from zero k level = []
slots_from (suc n) k level = level k ∷ slots_from n (k + 1) level

abbrev pub slots_of : (ℕ → Option Octets) → Slots
slots_of = slots_from 16 1

pub winning-slots_from :
    (n k : ℕ) (level : ℕ → Option Octets) → winning (slots_from n k level) ≡ highest n k level
unfolding winning slots_from highest
winning-slots_from zero k level = refl
winning-slots_from (suc n) k level = elim (Option-cases (level k)) [
  | inl e ↦ rw e (winning-slots_from n (k + 1) level)
  | inr (v, e) ↦ rw e refl
]

module _ (level : ℕ → Option Octets) (j : ℕ) (v : Option Octets) where
  abbrev pub changed : ℕ → Option Octets
  changed i = if i == j then v else level i

  slots_from-beyond : (n k : ℕ) → j < k → slots_from n k changed ≡ slots_from n k level
  unfolding slots_from
  slots_from-beyond zero k h = refl
  slots_from-beyond (suc n) k h =
      let other : (k == j) ≡ false = ground (arith, ==_iff k j) in
      rw (other, slots_from-beyond n (k + 1) (omega arith)) refl

  pub slots_from-changed :
      (n k i : ℕ) → k + i ≡ j → slots_from n k changed ≡ set (slots_from n k level) i v
  unfolding slots_from
  slots_from-changed zero k i e = refl
  slots_from-changed (suc n) k zero e =
      let here : (k == j) ≡ true = ground (arith, ==_iff k j) in
      rw (here, slots_from-beyond n (k + 1) (omega arith)) refl
  slots_from-changed (suc n) k (suc i) e =
      let other : (k == j) ≡ false = ground (arith, ==_iff k j) in
      rw (other, slots_from-changed n (k + 1) i (omega arith)) refl
