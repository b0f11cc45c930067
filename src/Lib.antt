-- ===== src/Lib.antt =====
-- The BACnet/IP codec and the simulated devices of this repository's wire tests (wiretest/).
--
-- The program has three layers. wiretest/codec.py turns BACnet/IP messages into octets and back:
-- tagged values (clause 20.2.1), APDUs (clauses 15 and 16), the NPDU (clause 6.2) and BVLL messages
-- (Annex J). wiretest/peer.py builds simulated devices on it: SimulatedDevice answers Who-Is and
-- ReadProperty, SimulatedServer serves objects that a test controls, with modes, failures and
-- 16-slot priority arrays. A datagram is decoded to a Frame, the device answers the frame with an
-- APDU, and the APDU is sent back as an NPDU in a BVLL message. On the side of the client,
-- wiretest/services.py and wiretest/alarm.py build the requests of further services and parse their
-- answers and notifications, wiretest/client.py sends requests with retries, and
-- wiretest/workstation.py receives event notifications in a thread while its requests wait.
--
-- Which file models what:
--   Base: numbers, lists, Boolean tests, bit operations as arithmetic, an interface for equality.
--   Python: octet strings with indexing and slices, struct and int conversions, exceptions as the
--   results of calls, dictionaries as association lists. Python.Ends: a call returns a value with a
--   property or raises one of some exceptions.
--   Platform: what the codec calls and the repository does not define (UTF-8, the struct formats of
--   floats), as the operations of a record with the laws that Python documents.
--   Codec.Constants, Codec.Encode, Codec.Values: the constants and the encoders of values of
--   wiretest/codec.py, under the functions' names; Codec.Bvll: bvll to npdu; Codec.Requests: the APDU
--   encoders; Codec.Tag: read_tag; Codec.Scan: the loops over tags, which the source writes out in
--   each decoder; Codec.Decode: the decoders and parsers; Codec.Frame: the class Frame, whose
--   constructor is decode.
--   Codec.Tagged and the WellNested of Codec.Scan.Steps say on their own what a tagged value and a
--   well-nested string of tags are; the encoders and decoders are compared with them.
--   Peer: SimulatedDevice, where receive is one datagram of _serve; Peer.Server: the attributes of
--   SimulatedServer as a record and its writes; Peer.Server.Answers: its _answer (server_answer) and
--   the methods that this calls.
--   Client: what an Answer of wiretest/client.py says, the invoke ids and the retry loop, with an
--   attempt as a parameter.
--   Services: the requests and parsers of wiretest/services.py, by service; Services.Multiple.Asked
--   is what the server reads from a ReadPropertyMultiple, Services.Multiple.Contents what the client
--   finds in the answer, and Services.Multiple.Served joins the two with the server that answers. Alarm: the same for
--   wiretest/alarm.py, with EventNotification as event_notification_of and parse_event_summaries in
--   Alarm.Summaries.
--   Codec.Scan.Consumes: how round trips through a loop over tags are put together from the parts of
--   a string.
--   Endpoint: the frames of Endpoint (wiretest/endpoint.py) and its wait_for, and on it the request and
--   who_is of Client.
--   Peer.Server.Commands: what a WriteProperty does to the priority arrays.
--   Peer.Server.Levels: what a server promises about its values, on its own; Peer.Server.Levels.Refines
--   compares the writes with it.
--   Workstation: Workstation of wiretest/workstation.py, where serve is one round of _serve and begin,
--   take_response and attempt are the parts of request; Workstation.Delivery: its thread and a test's
--   requests as steps in any order.
--   Examples: the theorems at concrete inputs.
--
-- An exception is a value of Result, and a state is passed on: a method that changes the object
-- returns the object after the call. An exception inside a handler ends the server's thread, so
-- the state behind one is not modelled. A callable that is served as a value is a function of the
-- moment of the call. Octets are natural numbers; an encoder raises what Python raises for a number
-- that does not fit. Python's sets and dictionaries with fixed keys are lists with a membership test
-- and records.
--
-- Of the workstation's requests one at a time is modelled.
--
-- The loops over tags recurse on fuel: the number of octets for a loop up to the end, one more for
-- the loop that looks for a closing tag. It is enough because every tag that is read moves the
-- position on, and running out of fuel is a result of its own that is excluded where an outcome is
-- stated.
--
-- Not modelled: sockets, threads and locks, clocks and child processes (wiretest/process.py,
-- wait.py, control.py, results.py), the texts for failure messages (describe,
-- date_time_text), the test scripts, and the TypeScript example itself, which calls a stack library
-- outside the repository. What arrives while an endpoint or the workstation waits is an argument, which
-- ends where the time is up.
pub mod Base
pub mod Python
pub mod Platform
pub mod Codec
pub mod Peer
pub mod Client
pub mod Services
pub mod Alarm
pub mod Endpoint
pub mod Workstation
pub mod Examples
