-- ===== src/Codec/Decode/Lists.antt =====
-- The decoders that collect every primitive of a string of tags, on strings of encoded primitives.
use bacnet_profile_example_b.Base.{
  ℕ, ◌+◌, ◌<◌, Bool, true, false, not, ◌&&◌, List, [], ◌∷◌, ◌++◌, ◌≡◌, refl, sym, ap, ◌∙◌, arith,
  length, drop, length-drop, All, ◌==◌, append-nil, append_assoc,
}
use bacnet_profile_example_b.Python.{Octets, Result, ok}
use bacnet_profile_example_b.Codec.Tag.{Tag}
use bacnet_profile_example_b.Codec.Tagged.{tagged}
use bacnet_profile_example_b.Codec.Tagged.Read.{read_tag-tagged}
use bacnet_profile_example_b.Codec.Scan.{Turn, go_on, scan}
use bacnet_profile_example_b.Codec.Scan.Steps.{Scans, Scans-end, Scans-go_on, Scans-scan}
use bacnet_profile_example_b.Codec.Decode.{
  Primitives, application_turn, application_values, context_turn, context_values,
}
use bacnet_profile_example_b.Codec.Decode.Reading.{tag_at}

-- A primitive that `tagged` writes and `read_tag` reads: (class, (tag number, body)).
abbrev pub IsPrimitive : Bool × ℕ × Octets → Type 0
IsPrimitive (c, n, body) = (n < 15) × ((not c && n == 1) ≡ false) × (length body < 65536)

abbrev pub octets_of : Bool × ℕ × Octets → Octets
octets_of (c, n, body) = tagged n c body

abbrev pub written : List (Bool × ℕ × Octets) → Octets
written [] = []
written (p ∷ ps) = octets_of p ++ written ps

-- The primitives of one class.
abbrev pub of_class : Bool → List (Bool × ℕ × Octets) → Primitives
of_class true [] = []
of_class false [] = []
of_class true ((true, n, b) ∷ ps) = (n, b) ∷ of_class true ps
of_class false ((false, n, b) ∷ ps) = (n, b) ∷ of_class false ps
of_class true ((false, n, b) ∷ ps) = of_class true ps
of_class false ((true, n, b) ∷ ps) = of_class false ps

-- The state after a loop that passes over the primitives from `position` on.
abbrev pub folded {ℓ} :
    {S : Type ℓ} → (S → ℕ → Bool × ℕ × Octets → S) → List (Bool × ℕ × Octets) → ℕ → S → S
folded next [] position s = s
folded next (p ∷ ps) position s =
    folded next ps (position + length (octets_of p)) (next s position p)

pub tagged-positive : (n : ℕ) (c : Bool) (body : Octets) → 0 < length (tagged n c body)
unfolding tagged
tagged-positive n c body = ground arith

module _ {ℓ} {S : Type ℓ} (octets : Octets) (body : S → Tag → Result (Turn S))
    (next : S → ℕ → Bool × ℕ × Octets → S)
    (round : (s : S) (position n : ℕ) (c : Bool) (b rest : Octets)
      → drop position octets ≡ tagged n c b ++ rest
      → body s (tag_at position n c b)
        ≡ ok (go_on (position + length (tagged n c b)) (next s position (c, n, b)))) where
  -- A loop whose rounds all go on folds its state over the primitives.
  Scans-written :
      (ps : List (Bool × ℕ × Octets)) (position : ℕ) (s : S)
      → All IsPrimitive ps
      → drop position octets ≡ written ps
      → Scans octets body position s (folded next ps position s)
  Scans-written [] position s h at =
      Scans-end octets body position s (omega (arith, length-drop position octets, ap length at))
  Scans-written ((c, n, b) ∷ ps) position s ((small, primitive, fits), h) at =
      let (reads, behind) =
        read_tag-tagged octets position n c b (written ps) small primitive fits at in
      Scans-go_on octets body position s (next s position (c, n, b)) _ (tag_at position n c b) _
        reads (round s position n c b (written ps) at) (omega (arith, tagged-positive n c b))
        (Scans-written ps (position + length (tagged n c b)) (next s position (c, n, b)) h behind)

  pub scan-written :
      (ps : List (Bool × ℕ × Octets)) (s : S)
      → All IsPrimitive ps
      → octets ≡ written ps
      → scan octets body 0 s ≡ ok (folded next ps 0 s)
  scan-written ps s h e = Scans-scan octets body 0 s _ (Scans-written ps 0 s h e)

abbrev collect : Bool → Primitives → ℕ → Bool × ℕ × Octets → Primitives
collect true values position (true, n, b) = values ++ (n, b) ∷ []
collect false values position (false, n, b) = values ++ (n, b) ∷ []
collect true values position (false, n, b) = values
collect false values position (true, n, b) = values

folded-collect :
    (context : Bool) (ps : List (Bool × ℕ × Octets)) (position : ℕ) (values : Primitives)
    → folded (collect context) ps position values ≡ values ++ of_class context ps
folded-collect true [] position values = sym (append-nil values)
folded-collect false [] position values = sym (append-nil values)
folded-collect true ((true, n, b) ∷ ps) position values =
    folded-collect true ps (position + length (tagged n true b)) (values ++ (n, b) ∷ [])
    ∙ append_assoc values ((n, b) ∷ []) (of_class true ps)
folded-collect false ((false, n, b) ∷ ps) position values =
    folded-collect false ps (position + length (tagged n false b)) (values ++ (n, b) ∷ [])
    ∙ append_assoc values ((n, b) ∷ []) (of_class false ps)
folded-collect true ((false, n, b) ∷ ps) position values =
    folded-collect true ps (position + length (tagged n false b)) values
folded-collect false ((true, n, b) ∷ ps) position values =
    folded-collect false ps (position + length (tagged n true b)) values

application_round :
    (values : Primitives) (position n : ℕ) (c : Bool) (b : Octets)
    → application_turn values (tag_at position n c b)
      ≡ ok (go_on (position + length (tagged n c b)) (collect false values position (c, n, b)))
unfolding application_turn
application_round values position n true b = refl
application_round values position n false b = refl

context_round :
    (values : Primitives) (position n : ℕ) (c : Bool) (b : Octets)
    → context_turn values (tag_at position n c b)
      ≡ ok (go_on (position + length (tagged n c b)) (collect true values position (c, n, b)))
unfolding context_turn
context_round values position n true b = refl
context_round values position n false b = refl

module _ (ps : List (Bool × ℕ × Octets)) (h : All IsPrimitive ps) where
  -- Of a string of encoded primitives of both classes, none an application BOOLEAN, `application_values` returns the application-tagged
  -- ones and `context_values` the context-tagged ones, all of them and in order.
  pub values-written :
      (application_values (written ps) ≡ ok (of_class false ps))
      × (context_values (written ps) ≡ ok (of_class true ps))
  unfolding application_values context_values
  values-written = (
    scan-written (written ps) application_turn (collect false)
          (λ s position n c b rest at. application_round s position n c b) ps [] h refl
        ∙ ap ok (folded-collect false ps 0 []),
    scan-written (written ps) context_turn (collect true)
          (λ s position n c b rest at. context_round s position n c b) ps [] h refl
        ∙ ap ok (folded-collect true ps 0 []),
  )
