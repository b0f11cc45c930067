-- ===== src/Examples/Servers.antt =====
-- The theorems on the simulated devices at concrete servers, frames and requests.
use bacnet_profile_example_b.Base.{
  ◌+◌, ℕ, ◌<◌, Bool, true, false, ◌&&◌, Option, none, some, List, All, [], ◌∷◌, ◌≡◌, ◌↔◌, refl, sym,
  ap, subst, arith, length, get_elem?, ◌==◌, if◌then◌else◌,
}
use bacnet_profile_example_b.Base.Eq.{nat_eq, pair_eq}
use bacnet_profile_example_b.Python.{Octets, Result, ok, ◌>>=◌, index, slice}
use bacnet_profile_example_b.Python.Dict.{Dict, get, member}
use bacnet_profile_example_b.Python.Ends.{Ends, Malformed}
use bacnet_profile_example_b.Platform.{Platform}
use bacnet_profile_example_b.Codec.Requests.{who_is, i_am, error_pdu}
use bacnet_profile_example_b.Codec.Requests.Shape.{who_is-eq}
use bacnet_profile_example_b.Codec.Decode.{
  ObjectId, WriteRequest, write_request, application_tag, i_am_device_instance,
}
use bacnet_profile_example_b.Codec.Tag.{
  read_tag, tag_number, extended_length, tag_length, tag_value, tag_rest,
}
use bacnet_profile_example_b.Codec.Frame.{Frame, blank, decode}
use bacnet_profile_example_b.Peer.{
  Identity, no_traffic, answer_who_is, reply_datagram, record_frame, receive, sent_datagram,
}
use bacnet_profile_example_b.Peer.Replies.{
  limit_octets, answer_who_is-who_is, decode-reply_datagram, IsReply,
}
use bacnet_profile_example_b.Peer.Discovery.{heard, simulated, who_is-answered, who_is-unanswered}
use bacnet_profile_example_b.Peer.Server.{
  Served, stored, offline, refusing, Server, Properties, Slots, fresh, new_server, empty_slots,
  winning, default_hooks, properties_of, served_value, is_commandable, is_commanded,
}
use bacnet_profile_example_b.Peer.Server.Answers.{answering, accept, write, server_answer}
use bacnet_profile_example_b.Peer.Server.Priority.{Follows, Controlled, winning-first}
use bacnet_profile_example_b.Peer.Server.Commands.{Shows, accept-serves, write-Controlled}
use bacnet_profile_example_b.Peer.Server.Levels.{
  Levels, slots_from, all_written, value_of, accept_all,
}
use bacnet_profile_example_b.Peer.Server.Levels.Refines.{
  Represents, IsAcceptable, accept_all-refines,
}
use bacnet_profile_example_b.Peer.Server.Fresh.{HasPresentValues, Starts, new_server-Controlled}
use bacnet_profile_example_b.Peer.Server.Modes.{
  Kept, server_answer-offline, write-refusing, accept-reads_back,
}
use bacnet_profile_example_b.Examples.{peer}

abbrev length_of : Result Octets → ℕ
length_of (ok octets) = length octets
length_of _ = 4

-- Texts are their own octets, and every REAL is four zeros.
abbrev pub octets_platform : Platform Octets ℕ
octets_platform = record {
  encode = λ text. text;
  decode = λ octets. octets;
  pack_float = λ value. ok (0 ∷ 0 ∷ 0 ∷ 0 ∷ []);
  unpack_float = λ octets. 0;
  unpack_double = λ octets. 0;
  decode-encode = λ text. refl;
  pack_float-length = λ value octets e. sym (ap length_of e);
}

abbrev identity : Identity Octets
identity = record { device_instance = 389001; object_name = 80 ∷ []; vendor_identifier = 389 }

-- An Analog Output with a Present_Value of 0.0 and a description.
abbrev pub output : ObjectId
output = (1, 0)

abbrev pub zero_real : Octets
zero_real = 0x44 ∷ 0 ∷ 0 ∷ 0 ∷ 0 ∷ []

abbrev output_properties : Properties
output_properties = (85, stored zero_real) ∷ (28, stored (0x70 ∷ [])) ∷ []

abbrev outputs : Dict ObjectId Properties
outputs = (output, output_properties) ∷ []

abbrev pub server : Server
server = fresh outputs none (some (output ∷ [])) true ((output, stored zero_real) ∷ [])

only_output : (object : ObjectId) → member (output ∷ []) object ≡ true → output ≡ object
unfolding member
only_output object m = (pair_eq.beq_iff output object).0 (ground arith)

output-Follows : Follows server output empty_slots (stored zero_real)
unfolding get properties_of winning
output-Follows = record { has_array = refl; sixteen = refl; has_default = refl; shows = refl }

server-Controlled : Controlled server
unfolding Controlled is_commandable
server-Controlled object m = (
  empty_slots,
  stored zero_real,
  subst (λ o. Follows server o empty_slots (stored zero_real)) (only_output object m)
      output-Follows,
)

-- Present_Value := 100.0 at priority 8.
abbrev hundred : Octets
hundred = 0x44 ∷ 0x42 ∷ 0xc8 ∷ 0 ∷ 0 ∷ []

abbrev command_eight : WriteRequest
command_eight = write_request output 85 none hundred (some 8)

write-Controlled_example :
    (octets : Octets) × (s' : Server) × (write default_hooks server 7 command_eight
      ≡ ok (some octets, s'))
    × Controlled s'
unfolding application_tag read_tag index tag_rest tag_number tag_length extended_length tag_value
    slice
write-Controlled_example =
    write-Controlled 7 (omega arith) server command_eight (some 4) refl server-Controlled
      (omega arith)

-- At priority 8 the value stands in the slot 7.
accept-serves_example :
    (s' : Server) × (slots' : Slots) × (served : Served) × (accept server command_eight false
      ≡ ok s')
    × (get s'.priority_arrays output ≡ some slots')
    × (length slots' ≡ 16)
    × ((i : ℕ)
        → get_elem? slots' i
          ≡ (if i + 1 == 8 then some (some hundred) else get_elem? empty_slots i))
    × (get (properties_of s' output) 85 ≡ some served)
    × Shows slots' (stored zero_real) served
unfolding get is_commanded is_commandable member
accept-serves_example =
    accept-serves server command_eight false output_properties empty_slots (stored zero_real) refl
      refl output-Follows (omega arith)

abbrev second_filled : Slots
second_filled = none ∷ some hundred ∷ []

winning-first_example : (winning second_filled ≡ some hundred) ↔ (
    (i : ℕ) × (get_elem? second_filled i ≡ some (some hundred))
    × ((j : ℕ) → j < i → get_elem? second_filled j ≡ some none))
winning-first_example = winning-first second_filled hundred

outputs-HasPresentValues : HasPresentValues outputs (output ∷ [])
unfolding get
outputs-HasPresentValues object m =
    subst
      (λ o.
        (properties : Properties) × (default : Served) × (get outputs o ≡ some properties)
        × (get properties 85 ≡ some default))
      (only_output object m) (output_properties, stored zero_real, refl, refl)

new_server-Controlled_example :
    (s : Server) × (new_server outputs none (some (output ∷ [])) true ≡ ok s)
    × (s.objects ≡ outputs)
    × ((object : ObjectId) → is_commandable s.commandable object ≡ true → Starts s object)
    × Controlled s
new_server-Controlled_example =
    new_server-Controlled outputs none (some (output ∷ [])) true outputs-HasPresentValues

-- The description is not commanded.
abbrev describe : WriteRequest
describe = write_request output 28 none (0x71 ∷ 65 ∷ []) none

accept-reads_back_example :
    (s' : Server) × (accept server describe false ≡ ok s')
    × ((now : ℕ) (object : ObjectId) (property : ℕ)
        → served_value s' now object property ≡ (
            if pair_eq.beq output object && 28 == property
            then some (0x71 ∷ 65 ∷ [])
            else served_value server now object property))
unfolding get is_commanded is_commandable member
accept-reads_back_example = accept-reads_back server describe false output_properties refl refl

abbrev gone : Server
gone = record server { mode = offline }

-- A frame that holds a WriteProperty request without its parameters.
abbrev short_write : Frame
short_write = record (blank [] peer) { payload = 0 ∷ 5 ∷ 7 ∷ 15 ∷ []; accepted = true }

server_answer-offline_example :
    Ends
      (λ ((apdu, s') : Option Octets × Server). (apdu ≡ none) × Kept gone s')
      Malformed
      (server_answer octets_platform identity default_hooks 0 short_write gone)
server_answer-offline_example =
    server_answer-offline octets_platform identity default_hooks 0 short_write gone refl

abbrev guarded : Server
guarded = record server { mode = refusing }

write-refusing_example :
    write default_hooks guarded 7 command_eight ≡ answering guarded (error_pdu 7 15 2 40)
unfolding get application_tag read_tag index tag_rest tag_number tag_length extended_length
    tag_value slice
write-refusing_example = write-refusing default_hooks guarded 7 command_eight (some 4) refl refl

-- A request that a router relays from address 1.2 of network 5.
abbrev relayed_request : Frame
relayed_request = record (blank [] peer) { snet = some 5; sadr = 1 ∷ 2 ∷ []; accepted = true }

decode-reply_datagram_example :
    (frame : Frame) × ((reply_datagram relayed_request (0x20 ∷ 7 ∷ 15 ∷ []) >>= λ datagram.
    decode datagram peer)
      ≡ ok frame)
    × IsReply relayed_request (0x20 ∷ 7 ∷ 15 ∷ []) frame
decode-reply_datagram_example =
    decode-reply_datagram relayed_request (0x20 ∷ 7 ∷ 15 ∷ []) peer (omega arith, omega arith)
      (omega arith)

abbrev who_is_frame : Frame
who_is_frame = record (blank [] peer) {
  payload = 0x10 ∷ 8 ∷ limit_octets 1 400000;
  accepted = true;
}

answer_who_is-who_is_example :
    answer_who_is octets_platform identity who_is_frame
    ≡ (i_am 389001 389 1476 3 >>= λ apdu. ok (some apdu))
answer_who_is-who_is_example =
    answer_who_is-who_is octets_platform identity who_is_frame 1 400000 (omega arith) (omega arith)
      (who_is-eq 1 400000 (omega arith) (omega arith))

who_is-unanswered_example :
    (who_is (some (1, 9)) >>= λ apdu. sent_datagram apdu >>= λ datagram.
    receive (simulated octets_platform identity) datagram peer false (tt, no_traffic))
    ≡ ok (tt, record_frame (heard (0x10 ∷ 8 ∷ limit_octets 1 9) peer) false no_traffic)
who_is-unanswered_example =
    who_is-unanswered octets_platform identity 1 9 (omega arith) (omega arith) peer no_traffic refl

who_is-answered_example :
    (datagram : Octets) × ((who_is (some (1, 400000)) >>= λ apdu. sent_datagram apdu >>= λ request.
    receive (simulated octets_platform identity) request peer false (tt, no_traffic))
      ≡ ok (
        tt,
        record (record_frame (heard (0x10 ∷ 8 ∷ limit_octets 1 400000) peer) false no_traffic) {
          sent = (datagram, peer) ∷ [];
        },
      ))
    × ((decode datagram peer >>= λ frame. i_am_device_instance frame.payload) ≡ ok (some 389001))
who_is-answered_example =
    who_is-answered octets_platform identity 1 400000 (omega arith) (omega arith) peer no_traffic
      peer (omega arith) (omega arith) (omega arith) (omega arith)

-- The server's outputs as levels: none has a value.
abbrev output_levels : Levels
output_levels = record {
  has_levels = λ object. is_commandable server.commandable object;
  level = λ object i. none;
  default = λ object. stored zero_real;
  property = λ object p. get (properties_of server object) p;
}

server-Represents : Represents server output_levels
unfolding is_commandable slots_from
server-Represents = record {
  same_objects = λ object. refl;
  follows = λ object m.
      subst (λ o. Follows server o empty_slots (stored zero_real)) (only_output object m)
        output-Follows;
  same_properties = λ object p h. refl;
}

-- A command at priority 8, its release, and a new description.
abbrev three_writes : List (WriteRequest × Bool)
three_writes =
    (command_eight, false)
    ∷ (write_request output 85 none (0 ∷ []) (some 8), true)
    ∷ (write_request output 28 none (0x71 ∷ []) none, false)
    ∷ []

three_writes-IsAcceptable : All (IsAcceptable server) three_writes
unfolding get
three_writes-IsAcceptable = ((refl, omega arith), ((refl, omega arith), ((refl, omega arith), tt)))

accept_all-refines_example :
    (s' : Server) × (accept_all server three_writes ≡ ok s')
    × ((now : ℕ) (object : ObjectId) (p : ℕ)
        → served_value s' now object p
          ≡ value_of (all_written output_levels three_writes) now object p)
accept_all-refines_example =
    accept_all-refines three_writes server output_levels server-Represents three_writes-IsAcceptable
