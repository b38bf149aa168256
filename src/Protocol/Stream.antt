-- ===== src/Protocol/Stream.antt =====
-- pkg/protocol/protocol.go: messages that are written one after the other are read in that order.
use lumeo_fs.Base.{
  ℕ, zero, suc, ◌+◌, ◌%◌, ◌≤◌, ◌<◌, Option, none, some, List, [], ◌∷◌, ◌++◌, length, take, All, ◌≡◌,
  refl, ap, ◌∙◌, inl, inr, arith, Option-cases, put_uint32, read_block, big_endian-put_uint32,
  length-put_uint32, read_block-shorter, read_block-frame, read_block-torn,
}
use mathlib.Core.List.{append_assoc}
use lumeo_fs.Protocol.Messages.{Message}
use lumeo_fs.Protocol.Wire.{
  packet, write_message, read_message, read_messages, received, write_messages,
}

module _ (marshal : Message → Option (List ℕ)) (unmarshal : List ℕ → Option Message) where
  -- `json.Marshal` makes a text of less than 2 ^ 32 bytes of the message, and `json.Unmarshal` reads
  -- it back.
  pub record Codes (msg : Message) (text : List ℕ) : Type 0 where
    pub made : marshal msg ≡ some text
    pub read : unmarshal text ≡ some msg
    pub short : length text < 4294967296

  header-length :
      (text : List ℕ) → length text < 4294967296 → length text % 4294967296 ≡ length text
  header-length text h = omega arith

  read_message-packet :
      (msg : Message) (text t : List ℕ)
      → Codes msg text
      → read_message unmarshal (packet text ++ t) ≡ some (msg, t)
  unfolding read_message
  read_message-packet msg text t c =
      let e = header-length text c.short in
      let block : read_block 4 (packet text ++ t) ≡ some (text, t) =
        rw (length-put_uint32 (length text % 4294967296)) at (
          read_block-frame (put_uint32 (length text % 4294967296)) text
            (rw e (big_endian-put_uint32 (length text) c.short)) t) in
      rw (block, read_message) (rw c.read refl)

  read_message-torn :
      (k : ℕ) (text : List ℕ)
      → length text < 4294967296
      → k < length (packet text)
      → read_message unmarshal (take k (packet text)) ≡ none
  unfolding read_message
  read_message-torn k text short lt =
      let e = header-length text short in
      let block : read_block 4 (take k (packet text)) ≡ none =
        rw (length-put_uint32 (length text % 4294967296)) at (
          read_block-torn (put_uint32 (length text % 4294967296)) text
            (rw e (big_endian-put_uint32 (length text) short)) k lt) in
      rw (block, read_message) refl

  read_message-shorter :
      (a r : List ℕ) (msg : Message)
      → read_message unmarshal a ≡ some (msg, r)
      → length r + 4 ≤ length a
  unfolding read_message
  read_message-shorter a r msg h = elim (Option-cases (read_block 4 a)) [
    | inl n ↦ absurd (ground arith)
    | inr ((text, rest), e) ↦ elim (Option-cases (unmarshal text)) [
      | inl n ↦ absurd (ground arith)
      | inr (m, u) ↦
          let s : rest ≡ r = ground arith in
          omega (arith, read_block-shorter 4 a text rest e, ap (length {A = ℕ}) s)
    ]
  ]

  -- Rounds beyond the length of the input change nothing.
  read_messages-fuel :
      (f g : ℕ) (a : List ℕ)
      → length a ≤ f
      → length a ≤ g
      → read_messages unmarshal f a ≡ read_messages unmarshal g a
  unfolding read_messages
  read_messages-fuel zero zero a h k = refl
  read_messages-fuel zero (suc g) a h k = elim (Option-cases (read_message unmarshal a)) [
    | inl n ↦ ground (arith, n)
    | inr ((msg, r), e) ↦ absurd (omega (arith, read_message-shorter a r msg e))
  ]
  read_messages-fuel (suc f) zero a h k = elim (Option-cases (read_message unmarshal a)) [
    | inl n ↦ ground (arith, n)
    | inr ((msg, r), e) ↦ absurd (omega (arith, read_message-shorter a r msg e))
  ]
  read_messages-fuel (suc f) (suc g) a h k = elim (Option-cases (read_message unmarshal a)) [
    | inl n ↦ ground (arith, n)
    | inr ((msg, r), e) ↦
        let s = read_message-shorter a r msg e in
        ground (arith, e, read_messages-fuel f g r (omega (arith, s)) (omega (arith, s)))
  ]

  received-next :
      (a r : List ℕ) (msg : Message)
      → read_message unmarshal a ≡ some (msg, r)
      → received unmarshal a ≡ msg ∷ received unmarshal r
  unfolding read_messages
  received-next [] r msg e = absurd (omega (arith, read_message-shorter [] r msg e))
  received-next (b ∷ a) r msg e =
      let s = read_message-shorter (b ∷ a) r msg e in
      rw (e, read_messages)
        (ap (◌∷◌ msg) (read_messages-fuel (length a) (length r) r (omega (arith, s)) (omega arith)))

  received-none : (a : List ℕ) → read_message unmarshal a ≡ none → received unmarshal a ≡ []
  unfolding read_messages
  received-none [] n = refl
  received-none (b ∷ a) n = rw (n, read_messages) refl

  -- Each of the messages is coded by some text.
  abbrev pub AllCodes : List Message → Type 0
  AllCodes = All (λ msg. (text : List ℕ) × Codes msg text)

  written :
      (msgs : List Message)
      → AllCodes msgs
      → (bytes : List ℕ) × (write_messages marshal msgs ≡ some bytes)
        × ((t : List ℕ) → read_message unmarshal t ≡ none → received unmarshal (bytes ++ t) ≡ msgs)
  unfolding write_messages write_message
  written [] cs = ([], refl, λ t n. received-none t n)
  written (msg ∷ msgs) ((text, c), cs) =
      let (bytes, w, r) = written msgs cs in
      (
        packet text ++ bytes,
        ground (arith, c.made),
        λ t n.
            ap (received unmarshal) (append_assoc (packet text) bytes t)
            ∙ received-next (packet text ++ (bytes ++ t)) (bytes ++ t) msg
                (read_message-packet msg text (bytes ++ t) c)
            ∙ ap (◌∷◌ msg) (r t n),
      )

  -- Messages that are written one after the other, each of which is coded by a text of less than
  -- 2 ^ 32 bytes, and the beginning of one more packet, which may be empty, are read as these
  -- messages in that order, and nothing else.
  pub received-write_messages :
      (msgs : List Message) (k : ℕ) (text : List ℕ)
      → AllCodes msgs
      → length text < 4294967296
      → k < length (packet text)
      → (bytes : List ℕ) × (write_messages marshal msgs ≡ some bytes)
        × (received unmarshal (bytes ++ take k (packet text)) ≡ msgs)
  received-write_messages msgs k text cs short lt =
      let (bytes, w, r) = written msgs cs in
      (bytes, w, r (take k (packet text)) (read_message-torn k text short lt))
