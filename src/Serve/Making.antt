-- ===== src/Serve/Making.antt =====
-- What a client's `CreateEnvironment` leaves behind.
use devpipe.Host
use devpipe.Environment
use devpipe.Host.{Backend, Host}
use devpipe.Prelude.Text.{Text}
