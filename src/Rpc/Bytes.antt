-- ===== src/Rpc/Bytes.antt =====
-- What Serialize puts into a buffer of bytes are bytes.
use test_server.Base.{none, Option, [], some, ◌<◌, List, ℕ}
use test_server.Memory.{store, until_nul}
use test_server.Rpc.{List, ℕ, until_nul, store}

abbrev pub IsByte : ℕ → Type 0
IsByte b = b < 256

abbrev buffer_of : Option (List ℕ × ℕ) → List ℕ
buffer_of none = []
buffer_of (some (buffer, size)) = buffer
