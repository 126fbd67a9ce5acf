-- ===== src/Error.antt =====
-- src/error.rs: the errors of the socket and of the parser, and the io::Error that they turn into.
-- Of an io::Error the model keeps the kind; its text is the Debug form that Rust derives.
use Prim.Native.String.{String}
use rfs_utp.Common.{ℕ}

pub data SocketError : Type 0 where
  connection_closed connection_reset connection_timed_out : SocketError
  invalid_address invalid_reply not_connected : SocketError
  other : String → SocketError

pub data ParseError : Type 0 where
  invalid_extension_length invalid_packet_length : ParseError
  invalid_packet_type : ℕ → ParseError
  unsupported_version : ParseError

-- The kinds of std::io::ErrorKind that the crate uses.
pub data ErrorKind : Type 0 where
  kind_not_connected kind_connection_reset kind_timed_out kind_invalid_input : ErrorKind
  kind_connection_refused kind_other kind_already_exists kind_not_found : ErrorKind
  kind_network_unreachable kind_invalid_data kind_broken_pipe : ErrorKind

-- `Error::description for SocketError`
unfoldable pub socket_error_description : SocketError → String
socket_error_description connection_closed = "The socket is closed"
socket_error_description connection_reset = "Connection reset by remote peer"
socket_error_description connection_timed_out = "Connection timed out"
socket_error_description invalid_address = "Invalid address"
socket_error_description invalid_reply = "The remote peer sent an invalid reply"
socket_error_description not_connected = "The socket is not connected"
socket_error_description (other s) = s

-- `From<SocketError> for io::Error`
unfoldable pub socket_error_kind : SocketError → ErrorKind
socket_error_kind connection_closed = kind_not_connected
socket_error_kind not_connected = kind_not_connected
socket_error_kind connection_reset = kind_connection_reset
socket_error_kind connection_timed_out = kind_timed_out
socket_error_kind invalid_address = kind_invalid_input
socket_error_kind invalid_reply = kind_connection_refused
socket_error_kind (other s) = kind_other

-- `Error::description for ParseError`
unfoldable pub parse_error_description : ParseError → String
parse_error_description invalid_extension_length =
    "Invalid extension length (must be a non-zero multiple of 4)"
parse_error_description invalid_packet_length = "The packet is too small"
parse_error_description (invalid_packet_type n) = "Invalid packet type"
parse_error_description unsupported_version = "Unsupported packet version"

-- `From<ParseError> for io::Error`
unfoldable pub parse_error_kind : ParseError → ErrorKind
parse_error_kind e = kind_other
