-- ===== src/Alarm/Summaries.antt =====
-- wiretest/alarm.py, `parse_event_summaries`.
pub mod Totality
use bacnet_profile_example_b.Base.{
  ℕ, zero, suc, Bool, true, false, not, ◌&&◌, ◌||◌, Option, none, some, List, [], ◌∷◌, ◌++◌, length,
  drop, ltb, ◌==◌, if◌then◌else◌,
}
use bacnet_profile_example_b.Python.{
  Octets, Result, ok, raised, type_error, out_of_fuel, ◌>>=◌, from_bytes,
}
use bacnet_profile_example_b.Codec.Tag.{Tag, open_tag, close_tag, value, read_tag}
use bacnet_profile_example_b.Codec.Scan.{Turn, go_on, scan}
use bacnet_profile_example_b.Codec.Decode.{ObjectId, is_kind, object_identifier}
use bacnet_profile_example_b.Codec.Values.{decode_bits}
use bacnet_profile_example_b.Alarm.{DateTime, read_time_stamp_choice}

-- One summary: the keys that are there.
pub record Summary : Type 0 where
  pub object : ObjectId
  pub event_state : Option ℕ
  pub acked_transitions : Option (List Bool)
  pub time_stamps : Option (List (Option DateTime))
  pub notify_type : Option ℕ
  pub event_enable : Option (List Bool)
  pub priorities : Option (List ℕ)

abbrev pub summary_of : ObjectId → Summary
summary_of object = record {
  object = object;
  event_state = none;
  acked_transitions = none;
  time_stamps = none;
  notify_type = none;
  event_enable = none;
  priorities = none;
}

-- The variables of the loop. `current` is the last summary itself, or None while there is none.
pub record Summaries : Type 0 where
  pub summaries : List Summary
  pub more_events : Option Bool
  pub in_list : Bool

abbrev pub no_summaries : Summaries
no_summaries = record { summaries = []; more_events = none; in_list = false }

-- `current[key] = ...`; a TypeError while `current` is None.
unfoldable pub change_current : (Summary → Summary) → List Summary → Result (List Summary)
change_current change [] = raised type_error
change_current change (s ∷ []) = ok (change s ∷ [])
change_current change (s ∷ s' ∷ summaries) = do
  rest ← change_current change (s' ∷ summaries)
  ok (s ∷ rest)

unfoldable pub changed : Summaries → (Summary → Summary) → ℕ → Result (Turn Summaries)
unfolding change_current
changed s change position = do
  summaries ← change_current change s.summaries
  ok (go_on position (record s { summaries = summaries }))

-- `for _ in range(3)`
unfoldable pub time_stamps_of : ℕ → Octets → ℕ → Result (List (Option DateTime) × ℕ)
time_stamps_of zero octets position = ok ([], position)
time_stamps_of (suc n) octets position = do
  (stamp, after) ← read_time_stamp_choice octets position
  (stamps, end) ← time_stamps_of n octets after
  ok (stamp ∷ stamps, end)

-- The loop up to a closing tag; the fuel is enough for any octets.
unfoldable pub priorities_from : ℕ → Octets → ℕ → Result (List ℕ × ℕ)
priorities_from zero octets position = out_of_fuel
priorities_from (suc fuel) octets position = read_tag octets position >>= λ tag.
    elim (is_kind tag.kind close_tag) [
      | true ↦ ok ([], tag.next)
      | false ↦ priorities_from fuel octets tag.next >>= λ (priorities, end).
          ok (from_bytes tag.body ∷ priorities, end)
    ]

unfoldable pub priorities_of : Octets → ℕ → Result (List ℕ × ℕ)
unfolding priorities_from
priorities_of octets position = priorities_from (suc (length octets)) octets position

abbrev pub is_value_of : Tag → ℕ → Bool
is_value_of tag number = is_kind tag.kind value && tag.is_context && tag.number == number

-- A tag outside the list of summaries [0].
unfoldable pub outer_turn : Summaries → Tag → Result (Turn Summaries)
outer_turn s tag =
    if is_kind tag.kind open_tag && tag.number == 0
    then ok (go_on tag.next (record s { in_list = true }))
    else if is_value_of tag 1
    then ok (go_on tag.next (record s { more_events = some (not (from_bytes tag.body == 0)) }))
    else ok (go_on tag.next s)

-- A tag inside the list.
unfoldable pub inner_turn : Octets → Summaries → Tag → Result (Turn Summaries)
unfolding changed change_current time_stamps_of priorities_of
inner_turn octets s tag =
    if is_kind tag.kind close_tag && tag.number == 0
    then ok (go_on tag.next (record s { in_list = false }))
    else if is_value_of tag 0
    then (do
      object ← object_identifier tag.body
      ok (go_on tag.next (record s { summaries = s.summaries ++ summary_of object ∷ [] })))
    else if is_value_of tag 1
    then changed s (λ c. record c { event_state = some (from_bytes tag.body) }) tag.next
    else if is_value_of tag 2
    then (do
      bits ← decode_bits tag.body
      changed s (λ c. record c { acked_transitions = some bits }) tag.next)
    else if is_value_of tag 5
    then (do
      bits ← decode_bits tag.body
      changed s (λ c. record c { event_enable = some bits }) tag.next)
    else if is_kind tag.kind open_tag && tag.number == 3
    then (do
      (stamps, end) ← time_stamps_of 3 octets tag.next
      summaries ← change_current (λ c. record c { time_stamps = some stamps }) s.summaries
      close ← read_tag octets end
      ok (go_on close.next (record s { summaries = summaries })))
    else if is_value_of tag 4
    then changed s (λ c. record c { notify_type = some (from_bytes tag.body) }) tag.next
    else if is_kind tag.kind open_tag && tag.number == 6
    then (do
      (priorities, end) ← priorities_of octets tag.next
      changed s (λ c. record c { priorities = some priorities }) end)
    else ok (go_on tag.next s)

unfoldable pub summary_turn : Octets → Summaries → Tag → Result (Turn Summaries)
unfolding outer_turn inner_turn
summary_turn octets s tag = if not s.in_list then outer_turn s tag else inner_turn octets s tag

unfoldable pub parse_event_summaries : Octets → Result (List Summary × Option Bool)
unfolding summary_turn
parse_event_summaries apdu = do
  s ← scan (drop 3 apdu) (summary_turn (drop 3 apdu)) 0 no_summaries
  ok (s.summaries, s.more_events)
