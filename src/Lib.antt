-- ===== src/Lib.antt =====
-- udp-arq-lab: reliable transfer over an unreliable datagram channel, in Python. A program sends
-- byte strings through a transport; the transport numbers them, wraps them into packets with a
-- checksum, and repeats them until the peer acknowledges; the channel under it loses, delays,
-- duplicates, reorders and corrupts what it is given, and hands the rest to a UDP socket.
--
-- The parts, by the files of udp_arq/ and the modules here:
--
-- * packet.py is Packet: the 16-byte header, `encode` and `decode` (Packet.RoundTrip).
-- * checksum.py is Checksum: the sum and `verify` (Checksum.Residue says what is summed).
-- * `_encode_with_checksum`, which each transport defines in the same words, is Wire; Wire.Sound says
--   that what is built verifies and decodes.
-- * channel.py is Channel, with the corruption of one bit in Channel.Corrupt. `Channel` is the state,
--   `sendto`, `deliver_round` (one round of `_deliver_loop`) and `close` change it, and `run` is any
--   sequence of them; Channel.Receive is `recvfrom`. Detection, Integrity, Counters and Drain hold
--   the proofs.
-- * rto.py is Rto: the constructor, `sample`, `on_timeout` (Rto.Bounds).
-- * timer_heap.py is TimerHeap, over Heapq, Python's heap queue (TimerHeap.Spec and its children: a
--   plain map from keys to deadlines).
-- * file_layer.py is FileLayer (FileLayer.Whole, FileLayer.Digest).
-- * transport/stop_and_wait.py is StopAndWait (Receiving, Attempts, Sending).
-- * Sliding is what the two sliding windows have in the same words: items, the channel's side, the
--   dicts by peer (Sliding.Peers), the errors of the calls. StopAndWait takes the channel's side from
--   it.
-- * transport/go_back_n.py is GoBackN. State holds the dicts by peer. Receiver is the DATA half of
--   `_handle_incoming`, Ack is `_handle_ack`, Pump is `_drain_outbound` and `_pump_windows`, Timeouts
--   is `_handle_timeouts` and `_next_wait_time`, Calls has `sendto`, `flush`, `recvfrom` and `close`,
--   Loop one round of `_sender_loop` and the runs of a transport. Proofs: Receiver.Prefix,
--   Receiver.Arrivals, Receiver.Lost, Ack.Cumulative, Calls.Flush, Calls.Closing, Calls.Silent and
--   Window.
-- * transport/selective_repeat.py is SelectiveRepeat, in the same parts: State, Receiver (with the
--   buffer of packets that came early), Ack, Pump, Timeouts (on TimerHeap, by peer and number), Calls,
--   Loop. Proofs: Receiver.Window and Receiver.Arranged for one peer's buffer, Receiver.Peers,
--   Receiver.Arrivals and Receiver.Complete for all peers, Ack.Individual, Timed for the timers,
--   Pump.Emptied and Overrun, Calls.Flush. Kept follows what a sender keeps for one peer through every
--   operation. Transfer puts two transports together: a move is a call of `sendto` or a round of the
--   thread at the sending one, or a datagram at the receiving one, and the wire of each `Link` says
--   what its channel may hand to the other.
-- * transport/null.py is Null (Null.Delivery).
-- * Prelude has the shared names: tests on numbers, lists, Python's dict as an association list,
--   floats, results. Tests has concrete parameters, and each theorem at a concrete input.
--
-- Conventions. A byte string is a list of numbers, and theorems that need it say that they are below
-- 256. Python's float is a parameter: a type with the operations of the record `Float`; where a
-- theorem needs laws of the order, it takes `FloatOrder`, which IEEE 754 has for values that are not
-- NaN. The clock, the random generator, the socket and SHA-256 are parameters too: the time of a
-- step is an argument, a generator is a function from a state to a draw and a state, the socket is
-- the list of what it was handed, and an argument says which sends raise (in Null, whose calls leave
-- nothing behind, an error of the channel passes through and is left out). `Reading` is what the
-- channel's `recvfrom` does in stop-and-wait, where its errors pass through; the loops of the sliding
-- windows catch TimeoutError and OSError there and go on, as in a round without an arrival. Type tests
-- that raise TypeError have no counterpart.
--
-- Loops are structural recursion, or on fuel where a bound is known: `fold_carry` gets its argument
-- as fuel, since a round makes it smaller; `range`, `read_loop` and `digest_loop` get the number of
-- bytes, since a round takes one at least; `pump_peer` gets the number of pending packets, since a
-- round takes one out; `take_ready` gets the number of buffered packets, since a round takes one out;
-- `skip_acked` gets `next_seq - base`, since a round raises the base and stops at `next_seq`. The loop
-- of stop-and-wait's `sendto` counts down MAX_RETRIES, as the code does. Waiting loops (`flush`, the channel's worker, `recvfrom`) run over the list of what they
-- see, and say when they still wait.
--
-- Not modelled: the abstract class in transport/base.py, the script demo.py, and the tests. The two
-- sliding windows run only with a positive `window_size`, which their constructors test. Threads
-- appear as orders of events: a round of a background thread is not interrupted, and the Event objects
-- that wake a waiting call are left out, since such a call looks again by itself.
pub mod Prelude
pub mod Packet
pub mod Checksum
pub mod Wire
pub mod Channel
pub mod Rto
pub mod Heapq
pub mod TimerHeap
pub mod FileLayer
pub mod SelectiveRepeat
pub mod Sliding
pub mod StopAndWait
pub mod GoBackN
pub mod Null
mod Tests
