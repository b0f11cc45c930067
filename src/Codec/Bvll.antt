-- ===== src/Codec/Bvll.antt =====
-- wiretest/codec.py, the encoders of BVLL messages (Annex J) and of the NPDU (clause 6.2).
use bacnet_profile_example_b.Base.{
  ℕ, ◌+◌, bit_or, Bool, true, false, Option, none, some, List, [], ◌∷◌, ◌++◌, length, if◌then◌else◌,
}
use bacnet_profile_example_b.Python.{Octets, Result, ok, ◌>>=◌, bytes, pack}
use bacnet_profile_example_b.Codec.Constants.{
  bvlc_type, bvlc_original_broadcast, bvlc_original_unicast, bvlc_forwarded_npdu,
  bvlc_distribute_broadcast_to_network, bvlc_register_foreign_device,
  bvlc_read_broadcast_distribution_table, bvlc_read_foreign_device_table,
  bvlc_delete_foreign_device_table_entry, bvlc_write_broadcast_distribution_table,
}

-- `address` is what `socket.inet_aton` makes of the text of an IPv4 address.
unfoldable pub mac : Octets → ℕ → Result Octets
mac address port = do port_octets ← pack 2 port; ok (address ++ port_octets)

-- `struct.pack(">BBH", BVLC_TYPE, function, 4 + len(body)) + body`
unfoldable pub bvll : ℕ → Octets → Result Octets
bvll function body = do
  type_octet ← pack 1 bvlc_type
  function_octet ← pack 1 function
  size ← pack 2 (4 + length body)
  ok (type_octet ++ (function_octet ++ (size ++ body)))

unfoldable pub bvlc : Octets → Bool → Result Octets
bvlc npdu_octets broadcast =
    bvll (if broadcast then bvlc_original_broadcast else bvlc_original_unicast) npdu_octets

unfoldable pub forwarded_npdu : Octets → Octets → Result Octets
forwarded_npdu originating_mac npdu_octets =
    bvll bvlc_forwarded_npdu (originating_mac ++ npdu_octets)

unfoldable pub distribute_broadcast_to_network : Octets → Result Octets
distribute_broadcast_to_network npdu_octets = bvll bvlc_distribute_broadcast_to_network npdu_octets

unfoldable pub register_foreign_device : ℕ → Result Octets
register_foreign_device time_to_live = do
  seconds ← pack 2 time_to_live
  bvll bvlc_register_foreign_device seconds

unfoldable pub read_broadcast_distribution_table : Result Octets
read_broadcast_distribution_table = bvll bvlc_read_broadcast_distribution_table []

unfoldable pub read_foreign_device_table : Result Octets
read_foreign_device_table = bvll bvlc_read_foreign_device_table []

unfoldable pub delete_foreign_device_table_entry : Octets → Result Octets
delete_foreign_device_table_entry entry_mac = bvll bvlc_delete_foreign_device_table_entry entry_mac

table_entries : List (Octets × Octets) → Octets
table_entries [] = []
table_entries ((address, mask) ∷ entries) = address ++ (mask ++ table_entries entries)

unfoldable pub write_broadcast_distribution_table : List (Octets × Octets) → Result Octets
unfolding table_entries
write_broadcast_distribution_table entries =
    bvll bvlc_write_broadcast_distribution_table (table_entries entries)

-- The keyword arguments of `npdu`.
pub record Routing : Type 0 where
  pub network_message : Option ℕ
  pub dnet : Option ℕ
  pub dadr : Octets
  pub snet : Option ℕ
  pub sadr : Octets
  pub expecting_reply : Bool
  pub hop_count : ℕ

-- Their defaults.
abbrev pub local : Routing
local = record {
  network_message = none;
  dnet = none;
  dadr = [];
  snet = none;
  sadr = [];
  expecting_reply = false;
  hop_count = 255;
}

abbrev pub is_given {ℓ} : {A : Type ℓ} → Option A → Bool
is_given none = false
is_given (some a) = true

-- `if given: control |= bit`
abbrev pub flag : Bool → ℕ → ℕ → ℕ
flag given bit control = if given then bit_or control bit else control

unfoldable pub npdu_control : Routing → ℕ
npdu_control r = flag r.expecting_reply 0x04 (
    flag (is_given r.snet) 0x08
      (flag (is_given r.dnet) 0x20 (flag (is_given r.network_message) 0x80 0)))

-- `struct.pack(">HB", net, len(adr)) + adr`, if the network is given.
unfoldable pub npdu_address : Option ℕ → Octets → Result Octets
npdu_address none adr = ok []
npdu_address (some net) adr = do
  net_octets ← pack 2 net
  size ← pack 1 (length adr)
  ok (net_octets ++ (size ++ adr))

unfoldable pub npdu_hop_count : Option ℕ → ℕ → Result Octets
npdu_hop_count none hop_count = ok []
npdu_hop_count (some net) hop_count = bytes (hop_count ∷ [])

unfoldable pub npdu_message : Option ℕ → Result Octets
npdu_message none = ok []
npdu_message (some network_message) = bytes (network_message ∷ [])

unfoldable pub npdu : Octets → Routing → Result Octets
npdu payload r = do
  head ← bytes (0x01 ∷ npdu_control r ∷ [])
  destination ← npdu_address r.dnet r.dadr
  source ← npdu_address r.snet r.sadr
  hops ← npdu_hop_count r.dnet r.hop_count
  message ← npdu_message r.network_message
  ok (head ++ (destination ++ (source ++ (hops ++ (message ++ payload)))))
