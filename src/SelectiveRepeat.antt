-- ===== src/SelectiveRepeat.antt =====
-- udp_arq/transport/selective_repeat.py: the sliding window with an acknowledgement and a timer for
-- each packet. The files below hold the state, the two halves of the transport and its public
-- calls, and their proofs.
pub mod State
pub mod Receiver
pub mod Ack
pub mod Pump
pub mod Timeouts
pub mod Calls
pub mod Loop
pub mod Timed
pub mod Overrun
pub mod Kept
pub mod Transfer
