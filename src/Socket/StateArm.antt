-- ===== src/Socket/StateArm.antt =====
-- src/socket.rs: the arm of `handle_packet` for a State packet on an open connection.
use rfs_utp.Common.{ℕ, ◌-◌, ◌<◌, ◌≡◌, arith, ok, panic, false, none}
use rfs_utp.Common.Target.{add_u16, sub_u16}
use rfs_utp.Packet.Types.{state}
use rfs_utp.Packet.Fields
use rfs_utp.Packet.Fields.{Packet}
use rfs_utp.BTreeMap.{get, is_empty}
use rfs_utp.Socket.State.{UtpSocketState, World, connected}
use rfs_utp.Socket.Handle.{on_state, dispatch, handle_packet}

module _ (w : World) (id : ℕ) where
  -- A State packet that reaches a connected peer while its window is not empty makes the handler
  -- panic wherever the window does not hold the packet numbered one below its `ack_nr`: for any
  -- duplicate count, and whether or not overflow is checked.
  pub on_state_panics :
      (packet : Packet) (peer : UtpSocketState)
      → Fields.get_type {E = ⊥} w.target packet ≡ ok state
      → peer.state ≡ connected
      → is_empty peer.sent_window ≡ false
      → 0 < Fields.ack_nr w.target packet
      → get (Fields.ack_nr w.target packet - 1) peer.sent_window ≡ none
      → handle_packet w id packet peer ≡ panic
  unfolding handle_packet dispatch on_state add_u16 sub_u16
  on_state_panics packet peer ty open_ busy pos missing = ground arith
