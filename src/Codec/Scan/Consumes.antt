-- ===== src/Codec/Scan/Consumes.antt =====
-- Round trips through a loop over tags, put together from the parts of a string: a part is consumed
-- when, wherever it stands, the loop passes over it and goes from one state to another.
use bacnet_profile_example_b.Base.{
  ℕ, ◌+◌, ◌<◌, Bool, true, false, not, ◌&&◌, [], ◌++◌, ◌≡◌, ap, ◌∙◌, sym, arith, length, drop, ◌==◌,
  append_assoc, append-nil, length-drop,
}
use bacnet_profile_example_b.Python.{Octets, Result, ok, raised, out_of_fuel, ◌>>=◌, slice}
use bacnet_profile_example_b.Codec.Tag.{Tag, open_tag, close_tag, value}
use bacnet_profile_example_b.Codec.Tagged.{tagged, opened, closed}
use bacnet_profile_example_b.Codec.Tagged.Read.{read_tag-tagged, read_tag-opened, read_tag-closed}
use bacnet_profile_example_b.Codec.Scan.{Turn, go_on, scan, nested_body, nested_end, skip_nested}
use bacnet_profile_example_b.Codec.Scan.Steps.{
  Scans, Scans-end, Scans-go_on, Scans-scan, WellNested, nested_body-WellNested,
}

abbrev pub tag_of : ℕ → ℕ → Bool → Octets → Tag
tag_of position n c body = record {
  number = n;
  is_context = c;
  kind = value;
  body = body;
  next = position + length (tagged n c body);
}

abbrev pub open_of : ℕ → ℕ → Tag
open_of position n = record {
  number = n;
  is_context = true;
  kind = open_tag;
  body = [];
  next = position + 1;
}

abbrev pub close_of : ℕ → ℕ → Tag
close_of position n = record {
  number = n;
  is_context = true;
  kind = close_tag;
  body = [];
  next = position + 1;
}

module _ {ℓ} {S : Type ℓ} (octets : Octets) (body : S → Tag → Result (Turn S)) where
  -- From `position` in state `s` the loop comes to where `rest` stands, in state `s'`.
  abbrev pub Passes : ℕ → S → Octets → S → Type ℓ
  Passes position s rest s' =
      (q : ℕ) × (drop q octets ≡ rest)
      × ((r : S) → Scans octets body q s' r → Scans octets body position s r)

  abbrev pub Consumes : Octets → S → S → Type ℓ
  Consumes part s s' =
      (position : ℕ) (rest : Octets)
      → drop position octets ≡ part ++ rest
      → Passes position s rest s'

  pub Consumes-nothing : (s : S) → Consumes [] s s
  Consumes-nothing s position rest at = (position, at, λ r run. run)

  pub Consumes-append :
      (part part' : Octets) (s s' s'' : S)
      → Consumes part s s'
      → Consumes part' s' s''
      → Consumes (part ++ part') s s''
  Consumes-append part part' s s' s'' first second position rest at =
      let (q, at_second, run) =
        first position (part' ++ rest) (at ∙ append_assoc part part' rest) in
      let (q', at_rest, run') = second q rest at_second in
      (q', at_rest, λ r end. run r (run' r end))

  -- A primitive that the body of the loop takes from `s` to `s'`.
  pub Consumes-tagged :
      (n : ℕ) (c : Bool) (b : Octets) (s s' : S)
      → n < 15
      → (not c && n == 1) ≡ false
      → length b < 65536
      → ((position : ℕ)
          → body s (tag_of position n c b) ≡ ok (go_on (position + length (tagged n c b)) s'))
      → Consumes (tagged n c b) s s'
  unfolding tagged
  Consumes-tagged n c b s s' small primitive fits turn position rest at =
      let (reads, behind) = read_tag-tagged octets position n c b rest small primitive fits at in
      (
        position + length (tagged n c b),
        behind,
        λ r run.
            Scans-go_on octets body position s s' r _ _ reads (turn position)
              (tagged-positive position) run,
      )
    where
      tagged-positive : (p : ℕ) → p < p + length (tagged n c b)
      tagged-positive p = ground arith

  pub Consumes-opened :
      (n : ℕ) (s s' : S)
      → n < 15
      → ((position : ℕ) → body s (open_of position n) ≡ ok (go_on (position + 1) s'))
      → Consumes (opened n) s s'
  Consumes-opened n s s' small turn position rest at =
      let (reads, behind) = read_tag-opened octets position n rest small at in
      (
        position + 1,
        behind,
        λ r run.
            Scans-go_on octets body position s s' r _ _ reads (turn position) (omega arith) run,
      )

  pub Consumes-closed :
      (n : ℕ) (s s' : S)
      → n < 15
      → ((position : ℕ) → body s (close_of position n) ≡ ok (go_on (position + 1) s'))
      → Consumes (closed n) s s'
  Consumes-closed n s s' small turn position rest at =
      let (reads, behind) = read_tag-closed octets position n rest small at in
      (
        position + 1,
        behind,
        λ r run.
            Scans-go_on octets body position s s' r _ _ reads (turn position) (omega arith) run,
      )

  -- An opening tag from which the body goes on behind the closing tag that matches it.
  pub Consumes-enclosed :
      (n : ℕ) (v : Octets) (s s' : S)
      → n < 15
      → WellNested v
      → ((position after : ℕ)
          → nested_body octets (position + 1) ≡ ok (v, after)
          → body s (open_of position n) ≡ ok (go_on after s'))
      → Consumes (opened n ++ (v ++ closed n)) s s'
  Consumes-enclosed n v s s' small nested turn position rest at =
      let split : drop position octets ≡ opened n ++ (v ++ (closed n ++ rest)) =
        at
        ∙ append_assoc (opened n) (v ++ closed n) rest
        ∙ ap (λ t. opened n ++ t) (append_assoc v (closed n) rest) in
      let (reads, inside) =
        read_tag-opened octets position n (v ++ (closed n ++ rest)) small split in
      let (found, behind) =
        nested_body-WellNested octets v rest n (position + 1) nested small inside in
      (
        position + 1 + length v + 1,
        behind,
        λ r run.
            Scans-go_on octets body position s s' r _ _ reads (turn position _ found) (omega arith)
              run,
      )

  -- An opening tag whose round reads on by itself.
  pub Consumes-opening :
      (n : ℕ) (part : Octets) (s s' : S)
      → n < 15
      → ((position : ℕ) (rest : Octets)
          → drop (position + 1) octets ≡ part ++ rest
          → (q : ℕ) × (body s (open_of position n) ≡ ok (go_on q s'))
            × (position < q)
            × (drop q octets ≡ rest))
      → Consumes (opened n ++ part) s s'
  Consumes-opening n part s s' small turn position rest at =
      let (reads, inside) =
        read_tag-opened octets position n (part ++ rest) small
          (at ∙ append_assoc (opened n) part rest) in
      let (q, goes_on, later, behind) = turn position rest inside in
      (q, behind, λ r run. Scans-go_on octets body position s s' r _ _ reads goes_on later run)

  -- A string that is consumed up to its end.
  pub Consumes-scan :
      (part : Octets) (position : ℕ) (s s' : S)
      → Consumes part s s'
      → drop position octets ≡ part
      → scan octets body position s ≡ ok s'
  Consumes-scan part position s s' consumes at =
      let (q, ended, run) = consumes position [] (at ∙ sym (append-nil part)) in
      Scans-scan octets body position s s'
        (run s' (Scans-end octets body q s' (omega (arith, length-drop q octets, ap length ended))))

module _ (octets v : Octets) (position after : ℕ) where
  abbrev body_and_end : ℕ × ℕ → Result (Octets × ℕ)
  body_and_end (tag_start, behind) = ok (slice octets position tag_start, behind)

  abbrev end_only : ℕ × ℕ → Result ℕ
  end_only (_, behind) = ok behind

  end_of : (r : Result (ℕ × ℕ)) → (r >>= body_and_end) ≡ ok (v, after) → (r >>= end_only) ≡ ok after
  end_of (ok (tag_start, behind)) h = cc
  end_of (raised e) h = cc
  end_of out_of_fuel h = cc

  -- `nested_end` in terms of `nested_body`.
  pub nested_end-body :
      nested_body octets position ≡ ok (v, after) → nested_end octets position ≡ ok after
  unfolding nested_body nested_end
  nested_end-body h = end_of (skip_nested octets position) h
