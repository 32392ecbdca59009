-- ===== src/Acquisition/Http.antt =====
-- The reading of an HTTP body in src/acquisition.rs: `Wire::byte`, `line` and `exact`, and the end of
-- `http_get`. A stream is the bytes that it yields and the error that a read returns behind them: of
-- the connection, the deadline or the cancellation, or `Protocol` at the end of the stream.
pub mod Consumed
pub mod Encoded
use docker_lens.Prelude.{
  ℕ, zero, suc, ◌+◌, ◌-◌, ◌*◌, Bool, true, false, not, ◌&&◌, ◌||◌, Option, none, some, List, [],
  ◌∷◌, ◌++◌, ltb, leb, length, take, all, ◌==◌, nat_eq, list_eq, Bytes, codes, is_ascii_digit,
  is_ascii_hexdigit, is_ascii_uppercase, split_on, word, Result, ok, err, ok_or, reject_if, ◌>>=◌,
  ◌>>◌, if◌then◌else◌,
}
use docker_lens.Acquisition.Limits.{LimitError}
use docker_lens.Acquisition.Api.{AcquisitionError}

pub record Wire : Type 0 where
  pub stream : Bytes
  pub ending : AcquisitionError

-- What a read returns, and the wire that it leaves.
abbrev pub Read : Type 0 → Type 0
Read A = Result AcquisitionError (A × Wire)

-- `Wire::byte`
unfoldable pub byte : Bytes → AcquisitionError → Read ℕ
byte [] ending = err ending
byte (b ∷ stream) ending = ok (b, record { stream = stream; ending = ending })

abbrev pub ends_crlf : Bytes → Bool
ends_crlf [] = false
ends_crlf (b ∷ line) = (b ∷ line) == (13 ∷ 10 ∷ []) || ends_crlf line

-- the loop of `Wire::line`, with the bytes that the cap leaves and the line so far
unfoldable pub line_from : ℕ → Bytes → Wire → Read Bytes
line_from zero line wire = err AcquisitionError.protocol
line_from (suc left) line wire = do
  got ← byte wire.stream wire.ending
  elim (ends_crlf (line ++ got.0 ∷ [])) [
    | true ↦ ok (take (length (line ++ got.0 ∷ []) - 2) (line ++ got.0 ∷ []), got.1)
    | false ↦ line_from left (line ++ got.0 ∷ []) got.1
  ]

abbrev pub line : ℕ → Wire → Read Bytes
line cap wire = line_from cap [] wire

-- `Wire::exact`, which appends to a vector
unfoldable pub exact : ℕ → Bytes → Wire → Read Bytes
exact zero out wire = ok (out, wire)
exact (suc count) out wire = do
  got ← byte wire.stream wire.ending
  exact count (out ++ got.0 ∷ []) got.1

-- `char::to_digit(16)` of a hexadecimal digit
abbrev pub hex_value : ℕ → ℕ
hex_value b =
    if is_ascii_digit b
    then b - b'0'
    else if is_ascii_uppercase b
    then b - b'A' + 10
    else b - b'a' + 10

abbrev pub hexadecimal : ℕ → Bytes → ℕ
hexadecimal value [] = value
hexadecimal value (b ∷ digits) = hexadecimal (value * 16 + hex_value b) digits

abbrev pub is_empty : Bytes → Bool
is_empty [] = true
is_empty (b ∷ bytes) = false

-- `usize::from_str_radix` accepts one plus sign in front of the digits.
abbrev pub strip_plus : Bytes → Bytes
strip_plus [] = []
strip_plus (b ∷ digits) = if b == b'+' then digits else b ∷ digits

-- `usize::from_str_radix(hex, 16).ok()`; a text that is not UTF-8 is refused by it too
unfoldable pub parse_hex : Bytes → Option ℕ
parse_hex text =
    if is_empty (strip_plus text)
      || not (all is_ascii_hexdigit (strip_plus text))
      || not (ltb (hexadecimal 0 (strip_plus text)) word)
    then none
    else some (hexadecimal 0 (strip_plus text))

-- `line.split(|byte| *byte == b';').next()`
abbrev pub first_piece : List Bytes → Bytes
first_piece [] = []
first_piece (piece ∷ pieces) = piece

unfoldable pub chunk_size : Bytes → Option ℕ
chunk_size header = parse_hex (first_piece (split_on b';' header))

abbrev pub max_header_bytes : ℕ
max_header_bytes = 16384

-- What one turn of the loop over the chunks comes to: the whole body, or the body so far.
pub data Progress : Type 0 where
  done : Bytes → Progress
  more : Bytes → Wire → Progress

-- the `break`: the line behind the last chunk is empty
abbrev pub last_chunk : Bytes → Wire → Result AcquisitionError Progress
last_chunk body wire = do
  trailer ← line max_header_bytes wire
  reject_if (not (is_empty trailer.0)) AcquisitionError.protocol
  ok (Progress.done body)

-- a chunk with its bytes and the line end behind them
abbrev pub data_chunk : ℕ → ℕ → Bytes → Wire → Result AcquisitionError Progress
data_chunk allowance size body wire = do
  reject_if (ltb (allowance - length body) size) (AcquisitionError.budget LimitError.bytes)
  read ← exact size body wire
  cr ← byte read.1.stream read.1.ending
  reject_if (not (cr.0 == 13)) AcquisitionError.protocol
  lf ← byte cr.1.stream cr.1.ending
  reject_if (not (lf.0 == 10)) AcquisitionError.protocol
  ok (Progress.more read.0 lf.1)

unfoldable pub read_chunk : ℕ → Bytes → Wire → Result AcquisitionError Progress
read_chunk allowance body wire = do
  header ← line 64 wire
  size ← ok_or (chunk_size header.0) AcquisitionError.protocol
  if size == 0 then last_chunk body header.1 else data_chunk allowance size body header.1

-- The loop, on fuel; `none` if the fuel runs out.
unfoldable pub read_chunks : ℕ → ℕ → Bytes → Wire → Option (Result AcquisitionError Bytes)
read_chunks zero allowance body wire = none
read_chunks (suc fuel) allowance body wire = elim (read_chunk allowance body wire) [
  | err e ↦ some (err e)
  | ok (Progress.done whole) ↦ some (ok whole)
  | ok (Progress.more next left) ↦ read_chunks fuel allowance next left
]

-- the two framings that the headers choose from
pub data Framing : Type 0 where
  chunked : Framing
  sized : ℕ → Framing

abbrev pub read_sized : ℕ → ℕ → Wire → Result AcquisitionError Bytes
read_sized allowance size wire = do
  reject_if (ltb allowance size) (AcquisitionError.budget LimitError.bytes)
  read ← exact size [] wire
  ok read.0

-- the end of `http_get`, behind the headers
unfoldable pub read_body : ℕ → Framing → Wire → Option (Result AcquisitionError Bytes)
read_body allowance Framing.chunked wire = read_chunks (suc (length wire.stream)) allowance [] wire
read_body allowance (Framing.sized size) wire = some (read_sized allowance size wire)
