-- ===== src/Net/Server/Framing.antt =====
-- What `send` puts on the wire, and what the receiver's parser and `on_message` make of it.
use mathlib.Core.Option
use cxxprogram.Prelude.{
  Bool-cases, List, Option, ap, arith, drop, drop-take, inl, inr, length, length-append,
  length-drop, length-take, ltb, ltb→lt, none, refl, some, sym, take, take-append_eq, take-take_le,
  ℕ, ◌%◌, ◌++◌, ◌+◌, ◌-◌, ◌<◌, ◌^◌, ◌∙◌, ◌≡◌, ◌≤◌, ◌⊎◌,
}
use cxxprogram.Prelude.Int.{pos}
use cxxprogram.Net.Queue.{ConcurrentQueue}
use cxxprogram.Net.BufferStream.{load}
use cxxprogram.Net.BufferPool.{
  DataBuffer, Manager, alloc, to_int, size_class, give_back, set_total_length, set_header_length,
  body_length,
}
use cxxprogram.Net.BufferPool.Alloc.{
  IsPooled, alloc-IsClean, give_back-IsPooled, size_class-fits, size_class-none_iff,
}
use cxxprogram.Net.BufferPool.Buffer.{payload, body as body_bytes}
use cxxprogram.Net.TcpParser.{word, header_size}
use cxxprogram.Net.TcpParser.Frames.{IsFrame}
use cxxprogram.Net.Server.{Packet, Server, Session, word_bytes, fill_buffer, send, on_message}

-- The bytes of one packet.
abbrev pub frame : ℕ → List ℕ → List ℕ
frame msgid body = word_bytes (header_size + length body) ++ (word_bytes msgid ++ body)

pub word-word_bytes : (n : ℕ) → n < 2 ^ 32 → word (word_bytes n) ≡ n
word-word_bytes n h = omega arith

pub frame-IsFrame : (msgid : ℕ) (body : List ℕ) → length body < 65528 → IsFrame (frame msgid body)
frame-IsFrame msgid body h = record {
  headed = omega arith;
  announces = word-word_bytes (header_size + length body) (omega arith) ∙ omega arith;
  fits = omega arith;
}

-- The buffer of a packet: its bytes, and then what the memory held.
abbrev filled : DataBuffer → ℕ → List ℕ → DataBuffer
filled b msgid body = record b {
  total_length = header_size + length body;
  header_length = header_size;
  buffer = frame msgid body ++ drop (length body) (drop 4 (drop 4 b.buffer));
}

fill_buffer_lem :
    (b : DataBuffer) (msgid : ℕ) (body : List ℕ)
    → length b.buffer ≡ b.alloc_size
    → header_size + length body ≤ b.alloc_size
    → fill_buffer b (header_size + length body) msgid body ≡ some (filled b msgid body)
unfolding fill_buffer set_total_length set_header_length
fill_buffer_lem b msgid body h k =
    ground (arith, length-drop 4 b.buffer, length-drop 4 (drop 4 b.buffer))

length-filled :
    (b : DataBuffer) (msgid : ℕ) (body : List ℕ)
    → length b.buffer ≡ b.alloc_size
    → header_size + length body ≤ b.alloc_size
    → length (filled b msgid body).buffer ≡ b.alloc_size
length-filled b msgid body h k = omega (
  arith,
  length-append body (drop (length body) (drop 4 (drop 4 b.buffer))),
  length-drop (length body) (drop 4 (drop 4 b.buffer)),
  length-drop 4 (drop 4 b.buffer),
  length-drop 4 b.buffer,
)

take-filled :
    (b : DataBuffer) (msgid : ℕ) (body : List ℕ)
    → take (header_size + length body) (filled b msgid body).buffer ≡ frame msgid body
take-filled b msgid body =
    take-append_eq (header_size + length body) (frame msgid body) _ (omega arith)

load-filled :
    (b : DataBuffer) (msgid : ℕ) (body : List ℕ)
    → length b.buffer ≡ b.alloc_size
    → header_size + length body ≤ b.alloc_size
    → load (filled b msgid body).buffer 0 (header_size + length body) ≡ some (frame msgid body)
load-filled b msgid body h k =
    rw (← take-filled b msgid body) (ground (arith, length-filled b msgid body h k))

load_le : (a : List ℕ) (i n : ℕ) → i + n ≤ length a → load a i n ≡ some (take n (drop i a))
load_le a i n h = ground arith

module _ (Q : ConcurrentQueue DataBuffer) where
  -- A message of fewer than 65528 bytes goes out as one packet: its length in little-endian order,
  -- its number, and its bytes; the pools stay as they should be.
  pub send_lem :
      (fill : ℕ) (m : Manager Q) (msgid : ℕ) (body : List ℕ)
      → IsPooled Q m
      → length body < 65528
      → (m' : Manager Q) × (send Q fill m msgid body ≡ some (frame msgid body, m'))
        × IsFrame (frame msgid body)
        × IsPooled Q m'
  unfolding send
  send_lem fill m msgid body v h = go (size_class (pos n)) refl
    where
      n : ℕ
      n = header_size + length body

      total : n % 2 ^ 64 ≡ n
      total = omega arith

      int : to_int n ≡ pos n
      int = ground arith

      go :
          (o : Option ℕ)
          → size_class (pos n) ≡ o
          → (m' : Manager Q) × (send Q fill m msgid body ≡ some (frame msgid body, m'))
            × IsFrame (frame msgid body)
            × IsPooled Q m'
      go none e = absurd (omega (arith, (size_class-none_iff n).0 e))
      go (some c) e =
          let (b, m', given, clean, w) = alloc-IsClean Q fill n m v e in
          let backed : length b.buffer ≡ b.alloc_size = omega arith in
          let roomy : n ≤ b.alloc_size = omega (arith, size_class-fits n e) in
          (
            give_back Q b.alloc_size (filled b msgid body) m',
            rw (
              total,
              int,
              given,
              fill_buffer_lem b msgid body backed roomy,
              load-filled b msgid body backed roomy,
            ),
            frame-IsFrame msgid body h,
            give_back-IsPooled Q m' b.alloc_size (filled b msgid body) w refl
                (length-filled b msgid body backed roomy),
          )

  -- A message of 65528 bytes or more, below 2^31 - 8, is not sent: the pools have no buffer for it,
  -- and the null pointer is followed.
  pub send-too_long :
      (fill : ℕ) (m : Manager Q) (msgid : ℕ) (body : List ℕ)
      → 65528 ≤ length body
      → length body < 2 ^ 31 - header_size
      → send Q fill m msgid body ≡ none
  unfolding send alloc
  send-too_long fill m msgid body h k =
      let n = header_size + length body in
      let total : n % 2 ^ 64 ≡ n = omega arith in
      let int : to_int n ≡ pos n = ground arith in
      rw (total, int, alloc, (size_class-none_iff n).1 (omega arith))

  -- From pools that are as they should be: a message of fewer than 65528 bytes goes out as one packet,
  -- its length in little-endian order, its number, and its bytes, and the pools stay as they should be;
  -- for a longer one, of fewer than 2^31 - 8 bytes, the pools have no buffer, and the null pointer that
  -- they give is followed.
  pub send_cases :
      (fill : ℕ) (m : Manager Q) (msgid : ℕ) (body : List ℕ)
      → IsPooled Q m
      → length body < 2 ^ 31 - header_size
      → ((length body < 65528)
          × ((m' : Manager Q) × (send Q fill m msgid body ≡ some (frame msgid body, m'))
              × IsFrame (frame msgid body)
              × IsPooled Q m'))
        ⊎ ((65528 ≤ length body) × (send Q fill m msgid body ≡ none))
  send_cases fill m msgid body v k = elim (Bool-cases (ltb (length body) 65528)) [
    | inl e ↦ let h = ltb→lt (length body) 65528 e in inl (h, send_lem fill m msgid body v h)
    | inr e ↦
        let h : 65528 ≤ length body = ground arith in inr (h, send-too_long fill m msgid body h k)
  ]

module _ (P : ConcurrentQueue Packet) where
  -- A delivered buffer that carries the packet of a message, with the lengths that the parser sets,
  -- is queued with the sender's number, and its body is the sender's message.
  pub on_message-frame :
      (v : Server P) (s : Session) (b : DataBuffer) (msgid : ℕ) (body : List ℕ)
      → payload b ≡ frame msgid body
      → b.header_length ≡ header_size
      → b.total_length ≡ header_size + length body
      → msgid < 2 ^ 32
      → length body < 2 ^ 32
      → (on_message P v s b
          ≡ some (record v {
            msg_queue =
                P.enqueue (record { session = s; msgid = msgid; buffer = some b }) v.msg_queue;
          }))
        × (body_bytes b ≡ body)
  unfolding on_message body_length
  on_message-frame v s b msgid body e h t k l =
      let rest = λ (n : ℕ). sym (ap (drop n) e) ∙ drop-take n b.total_length b.buffer in
      let long : header_size ≤ length b.buffer =
        omega (arith, ap length e, length-take b.total_length b.buffer) in
      let number : take 4 (drop 4 b.buffer) ≡ word_bytes msgid =
        sym (take-take_le 4 (b.total_length - 4) (drop 4 b.buffer) (omega arith))
        ∙ ap (take 4) (sym (rest 4)) in
      let read : load b.buffer 4 4 ≡ some (word_bytes msgid) =
        load_le b.buffer 4 4 long ∙ ap some number in
      let size : (b.total_length + 2 ^ 64 - b.header_length) % 2 ^ 64 ≡ b.total_length - 8 =
        omega arith in
      (
        ap
              (Option.map (λ bytes. record v {
                msg_queue =
                    P.enqueue (record { session = s; msgid = word bytes; buffer = some b })
                      v.msg_queue;
              }))
              read
            ∙ ap
                (λ n. some (record v {
                  msg_queue =
                      P.enqueue (record { session = s; msgid = n; buffer = some b }) v.msg_queue;
                }))
                (word-word_bytes msgid k),
        ap (λ n. take n (drop b.header_length b.buffer)) size
            ∙ ap (λ n. take (b.total_length - 8) (drop n b.buffer)) h
            ∙ sym (rest 8),
      )
