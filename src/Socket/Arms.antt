-- ===== src/Socket/Arms.antt =====
-- src/socket.rs: the arms of the `match` of `handle_packet`, for what holds of each of them.
use rfs_utp.Common.{ℕ, ◌≡◌, refl}
use rfs_utp.Packet.Types.{PacketType, data_, fin, state, reset, syn, ack}
use rfs_utp.Packet.Fields.{Packet}
use rfs_utp.Socket.State.{
  SocketState, new_, connected, syn_sent, fin_sent, reset_received, closed, UtpSocketState, World,
}
use rfs_utp.Socket.Handle.{
  Handled, Run, on_first_syn, on_syn, on_syn_acked, on_ack, on_data, on_state, on_fin, on_reset,
  on_other, dispatch,
}

-- What holds of each arm: those of data and State packets only where the packet is one.
pub record EachArm (Q : Run Handled → Type 0) (w : World) (id : ℕ) (s : SocketState)
    (ty : PacketType) (packet : Packet) (peer : UtpSocketState) : Type 0 where
  pub first_syn_arm : Q (on_first_syn w id packet peer)
  pub syn_arm : Q (on_syn w id packet peer)
  pub syn_acked_arm : Q (on_syn_acked w id packet peer)
  pub ack_arm : Q (on_ack w id packet peer)
  pub data_arm : ty ≡ data_ → Q (on_data w id packet peer)
  pub state_arm : s ≡ connected → ty ≡ state → Q (on_state w id packet peer)
  pub fin_arm : Q (on_fin w id packet peer)
  pub reset_arm : Q (on_reset w id peer)
  pub other_arm : Q (on_other w id peer)

-- What holds of each arm holds of the `match`.
pub dispatch-arms :
    (Q : Run Handled → Type 0) (w : World) (id : ℕ) (s : SocketState) (ty : PacketType)
    (packet : Packet) (peer : UtpSocketState)
    → EachArm Q w id s ty packet peer
    → Q (dispatch w id s ty packet peer)
unfolding dispatch
dispatch-arms Q w id new_ data_ packet peer arms = arms.other_arm
dispatch-arms Q w id new_ fin packet peer arms = arms.other_arm
dispatch-arms Q w id new_ state packet peer arms = arms.other_arm
dispatch-arms Q w id new_ reset packet peer arms = arms.reset_arm
dispatch-arms Q w id new_ syn packet peer arms = arms.first_syn_arm
dispatch-arms Q w id new_ ack packet peer arms = arms.other_arm
dispatch-arms Q w id connected data_ packet peer arms = arms.data_arm refl
dispatch-arms Q w id connected fin packet peer arms = arms.fin_arm
dispatch-arms Q w id connected state packet peer arms = arms.state_arm refl refl
dispatch-arms Q w id connected reset packet peer arms = arms.reset_arm
dispatch-arms Q w id connected syn packet peer arms = arms.syn_arm
dispatch-arms Q w id connected ack packet peer arms = arms.ack_arm
dispatch-arms Q w id syn_sent data_ packet peer arms = arms.other_arm
dispatch-arms Q w id syn_sent fin packet peer arms = arms.other_arm
dispatch-arms Q w id syn_sent state packet peer arms = arms.syn_acked_arm
dispatch-arms Q w id syn_sent reset packet peer arms = arms.reset_arm
dispatch-arms Q w id syn_sent syn packet peer arms = arms.syn_arm
dispatch-arms Q w id syn_sent ack packet peer arms = arms.other_arm
dispatch-arms Q w id fin_sent data_ packet peer arms = arms.data_arm refl
dispatch-arms Q w id fin_sent fin packet peer arms = arms.fin_arm
dispatch-arms Q w id fin_sent state packet peer arms = arms.other_arm
dispatch-arms Q w id fin_sent reset packet peer arms = arms.reset_arm
dispatch-arms Q w id fin_sent syn packet peer arms = arms.syn_arm
dispatch-arms Q w id fin_sent ack packet peer arms = arms.ack_arm
dispatch-arms Q w id reset_received data_ packet peer arms = arms.other_arm
dispatch-arms Q w id reset_received fin packet peer arms = arms.other_arm
dispatch-arms Q w id reset_received state packet peer arms = arms.other_arm
dispatch-arms Q w id reset_received reset packet peer arms = arms.reset_arm
dispatch-arms Q w id reset_received syn packet peer arms = arms.syn_arm
dispatch-arms Q w id reset_received ack packet peer arms = arms.other_arm
dispatch-arms Q w id closed data_ packet peer arms = arms.other_arm
dispatch-arms Q w id closed fin packet peer arms = arms.other_arm
dispatch-arms Q w id closed state packet peer arms = arms.other_arm
dispatch-arms Q w id closed reset packet peer arms = arms.reset_arm
dispatch-arms Q w id closed syn packet peer arms = arms.syn_arm
dispatch-arms Q w id closed ack packet peer arms = arms.other_arm
