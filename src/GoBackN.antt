-- ===== src/GoBackN.antt =====
-- udp_arq/transport/go_back_n.py: the sliding window with cumulative acknowledgements. The files
-- below hold the state, the two halves of the transport and its public calls, and their proofs.
pub mod State
pub mod Receiver
pub mod Ack
pub mod Pump
pub mod Timeouts
pub mod Calls
pub mod Loop
pub mod Window
