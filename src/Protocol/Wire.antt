-- ===== src/Protocol/Wire.antt =====
-- pkg/protocol/protocol.go: `WriteMessage` and `ReadMessage`, on the bytes of a connection. What
-- `json.Marshal` makes of a message and `json.Unmarshal` of bytes are parameters; `none` is an error.
use lumeo_fs.Base.{
  ℕ, zero, suc, ◌%◌, Option, none, some, List, [], ◌∷◌, ◌++◌, length, put_uint32, read_block,
}
use lumeo_fs.Protocol.Messages.{Message}

-- What `WriteMessage` writes for the JSON text of a message: its length, as a `uint32`, and the text.
abbrev pub packet : List ℕ → List ℕ
packet text = put_uint32 (length text % 4294967296) ++ text

-- `WriteMessage`: the bytes that it writes.
unfoldable pub write_message : (Message → Option (List ℕ)) → Message → Option (List ℕ)
write_message marshal msg = elim (marshal msg) [ none ↦ none | some text ↦ some (packet text) ]

-- `ReadMessage`: the message, and what is left to read.
unfoldable pub read_message : (List ℕ → Option Message) → List ℕ → Option (Message × List ℕ)
read_message unmarshal input = elim (read_block 4 input) [
  | none ↦ none
  | some (text, rest) ↦ elim (unmarshal text) [ none ↦ none | some msg ↦ some (msg, rest) ]
]

-- The loop of `handleConnection`, for at most the number of rounds given: the messages that are
-- handled, up to the first error.
unfoldable pub read_messages : (List ℕ → Option Message) → ℕ → List ℕ → List Message
read_messages unmarshal zero input = []
read_messages unmarshal (suc fuel) input = elim (read_message unmarshal input) [
  | none ↦ []
  | some (msg, rest) ↦ msg ∷ read_messages unmarshal fuel rest
]

-- Every message that is read takes at least four bytes.
abbrev pub received : (List ℕ → Option Message) → List ℕ → List Message
received unmarshal input = read_messages unmarshal (length input) input

-- The bytes of several messages one after the other.
unfoldable pub write_messages : (Message → Option (List ℕ)) → List Message → Option (List ℕ)
write_messages marshal [] = some []
write_messages marshal (msg ∷ msgs) = elim (write_message marshal msg) [
  | none ↦ none
  | some bytes ↦ elim (write_messages marshal msgs) [
    | none ↦ none
    | some more ↦ some (bytes ++ more)
  ]
]
