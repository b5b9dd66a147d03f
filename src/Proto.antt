-- ===== src/Proto.antt =====
-- devpipe/src/proto.rs: the frame codec and the messages of the two ends.
pub mod Messages
pub mod Codec
pub mod Control
use devpipe.Prelude.{
  ℕ, zero, suc, ◌+◌, ◌*◌, ◌/◌, ◌%◌, ◌^◌, Option, none, some, List, [], ◌∷◌, ◌++◌, ltb, length,
  if◌then◌else◌,
}
use devpipe.Prelude.Result.{Result, ok, err, ◌>>=◌}

abbrev pub version : ℕ
version = 4

-- The control channel.
abbrev pub control : ℕ
control = 0

abbrev pub header : ℕ
header = 5

pub data Op : Type 0 where
  data_op event close_op : Op

pub data Error : Type 0 where
  unknown_opcode : ℕ → Error
  shorter_than_header : Error

-- `op as u8`
abbrev pub op_byte : Op → ℕ
op_byte data_op = 0
op_byte event = 1
op_byte close_op = 2

unfoldable pub op_from_byte : ℕ → Result Error Op
op_from_byte zero = ok data_op
op_from_byte (suc zero) = ok event
op_from_byte (suc (suc zero)) = ok close_op
op_from_byte b = err (unknown_opcode b)

pub record Frame : Type 0 where
  pub channel : ℕ
  pub op : Op
  pub payload : List ℕ

abbrev pub data_frame : ℕ → List ℕ → Frame
data_frame channel payload = record { channel = channel; op = data_op; payload = payload }

abbrev pub event_frame : ℕ → List ℕ → Frame
event_frame channel payload = record { channel = channel; op = event; payload = payload }

abbrev pub close_frame : ℕ → Frame
close_frame channel = record { channel = channel; op = close_op; payload = [] }

-- `u32::to_be_bytes`, and `as u32` before it: the number is taken modulo 2 ^ 32.
abbrev pub be_bytes : ℕ → List ℕ
be_bytes n = (n / 2 ^ 24) % 256 ∷ (n / 2 ^ 16) % 256 ∷ (n / 2 ^ 8) % 256 ∷ n % 256 ∷ []

abbrev pub from_be_bytes : ℕ → ℕ → ℕ → ℕ → ℕ
from_be_bytes a b c d = a * 2 ^ 24 + b * 2 ^ 16 + c * 2 ^ 8 + d

unfoldable pub encode : Frame → List ℕ
encode f = be_bytes f.channel ++ op_byte f.op ∷ f.payload

abbrev decode_with : ℕ → List ℕ → Result Error Op → Result Error Frame
decode_with channel payload (ok op) = ok (record { channel = channel; op = op; payload = payload })
decode_with channel payload (err e) = err e

unfoldable pub decode : List ℕ → Result Error Frame
unfolding op_from_byte
decode (a ∷ b ∷ c ∷ d ∷ o ∷ payload) = decode_with (from_be_bytes a b c d) payload (op_from_byte o)
decode _ = err shorter_than_header
