-- ===== src/Protocol/Tests.antt =====
-- pkg/protocol/protocol.go: the theorems at concrete inputs.
use lumeo_fs.Base.{ℕ, Option, none, some, List, [], ◌∷◌, ◌++◌, take, ◌≡◌, refl, arith, put_uint32}
use lumeo_fs.Protocol.Messages.{Message}
use lumeo_fs.Protocol.Wire.{packet, received, write_messages}
use lumeo_fs.Protocol.Stream.{received-write_messages}

-- A codec in which the text of a message is its type and its payload.
abbrev marshal_plain : Message → Option (List ℕ)
marshal_plain msg = some (msg.type ∷ msg.payload)

abbrev unmarshal_plain : List ℕ → Option Message
unmarshal_plain [] = none
unmarshal_plain (t ∷ bytes) = some (record { type = t; payload = bytes })

abbrev two_messages : List Message
two_messages = record { type = 12; payload = 7 ∷ 8 ∷ [] } ∷ record { type = 1; payload = [] } ∷ []

received-write_messages_example :
    (bytes : List ℕ) × (write_messages marshal_plain two_messages ≡ some bytes)
    × (received unmarshal_plain (bytes ++ take 4 (packet (5 ∷ []))) ≡ two_messages)
unfolding put_uint32
received-write_messages_example =
    received-write_messages marshal_plain unmarshal_plain two_messages 4 (5 ∷ [])
      (
        (12 ∷ 7 ∷ 8 ∷ [], record { made = refl; read = refl; short = omega arith }),
        ((1 ∷ [], record { made = refl; read = refl; short = omega arith }), tt),
      )
      (omega arith) (omega arith)
