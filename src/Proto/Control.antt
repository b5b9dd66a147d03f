-- ===== src/Proto/Control.antt =====
-- `Frame::control` and `Frame::json` of devpipe/src/proto.rs: a message on the control channel.
use devpipe.Proto.{data_frame, Frame, control}
use devpipe.Prelude.{some, Option, ◌≡◌}
use devpipe.Proto.Messages.{pty, Pane, Json}
use devpipe.Prelude.Text.{codes, Text}

unfoldable pub control_frame {ℓ} : {M : Type ℓ} → Json M → M → Frame
control_frame json message = data_frame control (json.to_vec message)

unfoldable pub json_of {ℓ} : {M : Type ℓ} → Json M → Frame → Option M
json_of json frame = json.from_slice frame.payload

pub json_of-control_frame {ℓ} :
    {M : Type ℓ} (json : Json M) (message : M)
    → json_of json (control_frame json message) ≡ some message
unfolding json_of control_frame
json_of-control_frame json message = json.from_slice-to_vec message

-- `Pane::kind`
pub kind_of : Pane → Text
kind_of (pty environment session argv cols rows) = codes "pty"
