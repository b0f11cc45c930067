-- ===== src/Alarm/Summaries/Totality.antt =====
-- The decoder of a GetEventInformation-ACK ends on any octets.
use bacnet_profile_example_b.Base.{
  ℕ, zero, suc, ◌+◌, ◌≤◌, ◌<◌, not, ◌&&◌, List, [], ◌∷◌, arith, length, drop, ◌==◌, Bool-cases, inl,
  inr,
}
use bacnet_profile_example_b.Python.{
  Octets, Exception, Result, type_error, index_error, struct_error, value_error,
}
use bacnet_profile_example_b.Python.Ends.{
  Ends, returns, raises, Malformed, Ends-if, Ends-bind, Ends-raising,
}
use bacnet_profile_example_b.Codec.Tag.{Tag, open_tag, close_tag}
use bacnet_profile_example_b.Codec.Tag.Advances.{read_tag-Ends, index-Ends}
use bacnet_profile_example_b.Codec.Scan.{Turn}
use bacnet_profile_example_b.Codec.Scan.Fuel.{Forward, scan-Ends_raising}
use bacnet_profile_example_b.Codec.Decode.{is_kind}
use bacnet_profile_example_b.Codec.Decode.Totality.{object_identifier-Total}
use bacnet_profile_example_b.Codec.Values.{decode_bits}
use bacnet_profile_example_b.Alarm.Notification.Totality.{read_time_stamp_choice-Ends}
use bacnet_profile_example_b.Alarm.Summaries.{
  Summary, Summaries, no_summaries, change_current, changed, time_stamps_of, priorities_from,
  priorities_of, is_value_of, outer_turn, inner_turn, summary_turn, parse_event_summaries,
}

-- What may be raised: what malformed octets raise, and a TypeError for what stands before any object.
abbrev pub MalformedOrUnlisted : Exception → Type 0
MalformedOrUnlisted type_error = Unit {0}
MalformedOrUnlisted e = Malformed e

widen : (e : Exception) → Malformed e → MalformedOrUnlisted e
widen index_error h = tt
widen struct_error h = tt
widen value_error h = tt
widen Exception.overflow_error h = h
widen Exception.type_error h = tt
widen Exception.key_error h = h

abbrev Fine {ℓ κ} : {A : Type ℓ} → (A → Type κ) → Result A → Type (ℓ ⊔ κ)
Fine P r = Ends P MalformedOrUnlisted r

change_current-Fine :
    (change : Summary → Summary) (summaries : List Summary)
    → Fine (λ s. Unit {0}) (change_current change summaries)
unfolding change_current
change_current-Fine change [] = raises tt
change_current-Fine change (s ∷ []) = returns tt
change_current-Fine change (s ∷ s' ∷ summaries) =
    Ends-bind (change_current-Fine change (s' ∷ summaries)) λ rest e h. returns tt

decode_bits-Fine : (body : Octets) → Fine (λ b. Unit {0}) (decode_bits body)
unfolding decode_bits
decode_bits-Fine body = Ends-raising (Ends-bind (index-Ends body 0) λ unused e h. returns tt) widen

module _ (position : ℕ) where
  -- A round that goes on behind `position`.
  abbrev Later : Turn Summaries → Type 0
  Later = Forward (λ s. Unit {0}) position

  changed-Fine :
      (s : Summaries) (change : Summary → Summary) (next : ℕ)
      → position < next
      → Fine Later (changed s change next)
  unfolding changed
  changed-Fine s change next lt =
      Ends-bind (change_current-Fine change s.summaries) λ summaries e h. returns (lt, tt)

module _ (octets : Octets) where
  time_stamps_of-Fine :
      (n position : ℕ) → Fine (λ (stamps, end). position ≤ end) (time_stamps_of n octets position)
  unfolding time_stamps_of
  time_stamps_of-Fine zero position = returns (omega arith)
  time_stamps_of-Fine (suc n) position =
      Ends-bind (Ends-raising (read_time_stamp_choice-Ends octets position) widen)
        λ (stamp, after) e h.
          Ends-bind (time_stamps_of-Fine n after) λ (stamps, end) e' h'. returns (omega arith)

  priorities_from-Fine :
      (fuel position : ℕ)
      → 0 < fuel
      → length octets < position + fuel
      → Fine (λ (priorities, end). position < end) (priorities_from fuel octets position)
  unfolding priorities_from
  priorities_from-Fine zero position some_fuel enough = absurd (omega arith)
  priorities_from-Fine (suc fuel) position some_fuel enough =
      Ends-bind (Ends-raising (read_tag-Ends octets position) widen) λ tag e (inside, lt).
        elim (Bool-cases (is_kind tag.kind close_tag)) [
          | inl closes ↦ rw closes (returns lt)
          | inr goes_on ↦ rw goes_on (
              Ends-bind (priorities_from-Fine fuel tag.next (omega arith) (omega arith))
                λ (priorities, end) e' h'. returns (omega arith))
        ]

  priorities_of-Fine :
      (position : ℕ) → Fine (λ (priorities, end). position < end) (priorities_of octets position)
  unfolding priorities_of
  priorities_of-Fine position =
      priorities_from-Fine (suc (length octets)) position (omega arith) (omega arith)

  module _ (s : Summaries) (tag : Tag) (position : ℕ) (lt : position < tag.next) where
    outer_turn-Fine : Fine (Later position) (outer_turn s tag)
    unfolding outer_turn
    outer_turn-Fine =
        Ends-if (is_kind tag.kind open_tag && tag.number == 0) (λ t. returns (lt, tt))
          λ f. Ends-if (is_value_of tag 1) (λ t. returns (lt, tt)) λ f. returns (lt, tt)

    inner_turn-Fine : Fine (Later position) (inner_turn octets s tag)
    unfolding inner_turn
    inner_turn-Fine =
        Ends-if (is_kind tag.kind close_tag && tag.number == 0) (λ t. returns (lt, tt))
          λ f.
            Ends-if (is_value_of tag 0)
              (λ t.
                Ends-bind (Ends-raising (object_identifier-Total tag.body) widen)
                  λ o e h. returns (lt, tt))
              λ f.
                Ends-if (is_value_of tag 1) (λ t. changed-Fine position s _ tag.next lt)
                  λ f.
                    Ends-if (is_value_of tag 2)
                      (λ t.
                        Ends-bind (decode_bits-Fine tag.body)
                          λ bits e h. changed-Fine position s _ tag.next lt)
                      λ f.
                        Ends-if (is_value_of tag 5)
                          (λ t.
                            Ends-bind (decode_bits-Fine tag.body)
                              λ bits e h. changed-Fine position s _ tag.next lt)
                          λ f.
                            Ends-if (is_kind tag.kind open_tag && tag.number == 3)
                              (λ t. Ends-bind (time_stamps_of-Fine 3 tag.next) λ (stamps, end) e h.
                                Ends-bind (change_current-Fine _ s.summaries) λ summaries e' h'.
                                  Ends-bind (Ends-raising (read_tag-Ends octets end) widen)
                                    λ close e'' k. returns (omega arith, tt))
                              λ f.
                                Ends-if (is_value_of tag 4)
                                  (λ t. changed-Fine position s _ tag.next lt)
                                  λ f.
                                    Ends-if (is_kind tag.kind open_tag && tag.number == 6)
                                      (λ t.
                                        Ends-bind (priorities_of-Fine tag.next)
                                          λ (priorities, end) e h.
                                            changed-Fine position s _ end (omega arith))
                                      λ f. returns (lt, tt)

-- Parsing a GetEventInformation-ACK ends on any octets, with its loop over priorities inside the loop over
-- tags: it returns the summaries, or raises IndexError, struct.error, ValueError or, for what stands before
-- any object, TypeError.
pub parse_event_summaries-Fine :
    (apdu : Octets) → Ends (λ r. Unit {0}) MalformedOrUnlisted (parse_event_summaries apdu)
unfolding parse_event_summaries summary_turn
parse_event_summaries-Fine apdu =
    Ends-bind
      (scan-Ends_raising (drop 3 apdu) (summary_turn (drop 3 apdu)) (λ s. Unit {0})
        MalformedOrUnlisted widen 0 no_summaries
        (λ s position tag h lt.
          Ends-if (not s.in_list) (λ t. outer_turn-Fine (drop 3 apdu) s tag position lt)
            (λ f. inner_turn-Fine (drop 3 apdu) s tag position lt))
        tt)
      λ s e h. returns tt
