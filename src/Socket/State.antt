-- ===== src/Socket/State.antt =====
-- src/socket.rs: the state that a socket keeps for each peer, and its constants.
use rfs_utp.Common.{ℕ, ◌*◌, List, [], Option, none}
use rfs_utp.Common.Int.{ℤ, pos}
use rfs_utp.Common.Target.{Target}
use rfs_utp.Error.{ErrorKind}
use rfs_utp.Time.{Timestamp, Delay}
use rfs_utp.Packet.Fields.{Packet}
use rfs_utp.BTreeMap.{BTreeMap}
use native.Mathlib.Decide.{ℕ_discrete}

abbrev pub buf_size : ℕ
buf_size = 6

abbrev pub mss : ℕ
mss = 5

abbrev pub init_cwnd : ℕ
init_cwnd = 2

abbrev pub initial_congestion_timeout : ℕ
initial_congestion_timeout = 500

abbrev pub max_retransmission_retries_default : ℕ
max_retransmission_retries_default = 5

pub data SocketState : Type 0 where
  new_ connected syn_sent fin_sent reset_received closed : SocketState

pub SocketState-discrete : Discrete SocketState
SocketState-discrete = hlevel

-- An address is known by its IPv4 address and port.
pub record SocketAddr : Type 0 where
  pub ip : ℕ
  pub port : ℕ

unfoldable pub SocketAddr-discrete : Discrete SocketAddr
SocketAddr-discrete = hlevel ℕ_discrete

pub record DelayDifferenceSample : Type 0 where
  pub received_at : Timestamp
  pub difference : Delay

pub record UtpSocketState : Type 0 where
  pub state : SocketState
  pub seq_nr : ℕ  -- u16
  pub ack_nr : ℕ  -- u16
  pub duplicate_ack_count : ℕ  -- u16
  pub last_acked : ℕ  -- u16
  pub last_acked_timestamp : Timestamp
  pub rtt : ℤ  -- i32
  pub rtt_variance : ℤ  -- i32
  pub curr_window : ℕ  -- u32
  pub cwnd : ℕ  -- u32
  pub max_retransmission_retries : ℕ  -- u32
  pub incoming_buffer : List Packet
  pub sent_window : BTreeMap Packet
  pub unsent_queue : List Packet
  pub remote_wnd_size : ℕ  -- u32
  pub base_delays : List Delay
  pub current_delays : List DelayDifferenceSample
  pub their_delay : Delay
  pub last_rollover : Timestamp
  pub congestion_timeout : ℕ  -- u64
  pub connected_to : Option SocketAddr
  pub sender_id : ℕ  -- u16
  pub out_of_order : BTreeMap Packet

-- `UtpSocketState::new`
unfoldable pub new : ℕ → UtpSocketState
new sender_id = record {
  state = new_;
  seq_nr = 1;
  ack_nr = 0;
  duplicate_ack_count = 0;
  last_acked = 0;
  last_acked_timestamp = 0;
  rtt = pos 0;
  rtt_variance = pos 0;
  curr_window = 0;
  cwnd = init_cwnd * mss;
  max_retransmission_retries = max_retransmission_retries_default;
  incoming_buffer = [];
  sent_window = [];
  unsent_queue = [];
  remote_wnd_size = 0;
  base_delays = [];
  current_delays = [];
  their_delay = pos 0;
  last_rollover = 0;
  congestion_timeout = initial_congestion_timeout;
  connected_to = none;
  sender_id = sender_id;
  out_of_order = [];
}

-- What a handler meets outside the crate: the target, the time of its one reading of the clock,
-- and what the UDP socket answers to a datagram, after as many others as were sent before it.
pub record World : Type 0 where
  pub target : Target
  pub now : Timestamp
  pub udp_send : ℕ → Packet → SocketAddr → Option ErrorKind

-- A datagram handed to the UDP socket.
pub record Datagram : Type 0 where
  pub packet : Packet
  pub addr : SocketAddr
