-- ===== src/Mailbox.antt =====
-- core/pkg/mailbox/mailbox.go: messages kept for a recipient until it fetches them.
pub mod Order
use stunner.Base.{ℕ, Option, none, some, List, [], ◌∷◌, ◌++◌, length}
use stunner.Base.Bytes.{Bytes}
use stunner.Base.Eq.{bytes_eq_instance}
use stunner.Base.Dict.{Dict, lookup, insert, remove}
use stunner.Base.Method.{Method, done}

-- The map of `Memory`.
abbrev pub Boxes : Type 0
Boxes = Dict Bytes (List Bytes)

-- m.box[recipientFP]: a missing key reads as an empty slice.
unfoldable pub box : Bytes → Boxes → List Bytes
box fp m = elim (lookup fp m) [ none ↦ [] | some msgs ↦ msgs ]

unfoldable pub put : Bytes → Bytes → Method Boxes (Unit {0})
put fp ciphertext m = done tt (insert fp (box fp m ++ ciphertext ∷ []) m)

unfoldable pub fetch : Bytes → Method Boxes (List Bytes)
fetch fp m = done (box fp m) (remove fp m)

unfoldable pub pending : Bytes → Boxes → ℕ
pending fp m = length (box fp m)
