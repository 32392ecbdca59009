-- ===== src/Acquisition/Http/Encoded.antt =====
-- Chunked bodies as a peer writes them, and what `http_get` of src/acquisition.rs reads of them.
use docker_lens.Prelude.{
  ℕ, zero, suc, ◌+◌, ◌-◌, ◌≤◌, ◌<◌, ◌≡◌, ◌≢◌, refl, sym, ap, ◌∙◌, true, false, some, List, [], ◌∷◌,
  ◌++◌, arith, ltb, length, length-append, take, take-append, ◌==◌, nat_eq, list_eq, Bytes, All,
  Result, ok,
}
use mathlib.Core.List.{append_assoc, append-nil}
use docker_lens.Acquisition.Api.{AcquisitionError}
use docker_lens.Acquisition.Http.{
  Wire, byte, ends_crlf, line_from, exact, chunk_size, max_header_bytes, Progress, read_chunk,
  read_chunks, Framing, read_body,
}

-- no carriage return
abbrev pub IsPlain : Bytes → Type 0
IsPlain text = All (λ b. b ≢ 13) text

ends_crlf-plain : (text : Bytes) → IsPlain text → ends_crlf text ≡ false
ends_crlf-plain [] p = refl
ends_crlf-plain (b ∷ text) p =
    let rest = ends_crlf-plain text p.1 in let first = p.0 in ground (arith, rest, first)

ends_crlf-cr : (text : Bytes) → IsPlain text → ends_crlf (text ++ 13 ∷ []) ≡ false
ends_crlf-cr [] p = refl
ends_crlf-cr (b ∷ text) p =
    let rest = ends_crlf-cr text p.1 in let first = p.0 in ground (arith, rest, first)

ends_crlf-crlf : (text : Bytes) → ends_crlf ((text ++ 13 ∷ []) ++ 10 ∷ []) ≡ true
ends_crlf-crlf [] = refl
ends_crlf-crlf (b ∷ text) = let rest = ends_crlf-crlf text in ground (arith, rest)

without_crlf :
    (text : Bytes)
    → take (length ((text ++ 13 ∷ []) ++ 10 ∷ []) - 2) ((text ++ 13 ∷ []) ++ 10 ∷ []) ≡ text
without_crlf text =
    let n : length ((text ++ 13 ∷ []) ++ 10 ∷ []) - 2 ≡ length text =
      omega (arith, length-append (text ++ 13 ∷ []) (10 ∷ []), length-append text (13 ∷ [])) in
    rw (n, append_assoc text (13 ∷ []) (10 ∷ [])) (take-append text (13 ∷ 10 ∷ []))

abbrev at : Bytes → AcquisitionError → Wire
at stream ending = record { stream = stream; ending = ending }

IsPlain-snoc : (text : Bytes) (b : ℕ) → IsPlain text → b ≢ 13 → IsPlain (text ++ b ∷ [])
IsPlain-snoc [] b p n = (n, tt)
IsPlain-snoc (c ∷ text) b p n = (p.0, IsPlain-snoc text b p.1 n)

-- one byte of a line, and its last
line_from-more :
    (left : ℕ) (before : Bytes) (b : ℕ) (stream : Bytes) (e : AcquisitionError)
    → ends_crlf (before ++ b ∷ []) ≡ false
    → line_from (suc left) before (at (b ∷ stream) e)
      ≡ line_from left (before ++ b ∷ []) (at stream e)
unfolding line_from byte
line_from-more left before b stream e h =
    ap
      (λ x. elim x as (λ _. Result AcquisitionError (Bytes × Wire)) [
        | true ↦ ok (take (length (before ++ b ∷ []) - 2) (before ++ b ∷ []), at stream e)
        | false ↦ line_from left (before ++ b ∷ []) (at stream e)
      ])
      h

line_from-last :
    (left : ℕ) (before : Bytes) (b : ℕ) (stream : Bytes) (e : AcquisitionError)
    → ends_crlf (before ++ b ∷ []) ≡ true
    → line_from (suc left) before (at (b ∷ stream) e)
      ≡ ok (take (length (before ++ b ∷ []) - 2) (before ++ b ∷ []), at stream e)
unfolding line_from byte
line_from-last left before b stream e h =
    ap
      (λ x. elim x as (λ _. Result AcquisitionError (Bytes × Wire)) [
        | true ↦ ok (take (length (before ++ b ∷ []) - 2) (before ++ b ∷ []), at stream e)
        | false ↦ line_from left (before ++ b ∷ []) (at stream e)
      ])
      h

line_from-plain :
    (left : ℕ) (before text rest : Bytes) (e : AcquisitionError)
    → IsPlain before
    → IsPlain text
    → length text + 2 ≤ left
    → line_from left before (at (text ++ (13 ∷ 10 ∷ rest)) e) ≡ ok (before ++ text, at rest e)
line_from-plain zero before text rest e p q l = absurd (omega (arith, l))
line_from-plain (suc zero) before text rest e p q l = absurd (omega (arith, l))
line_from-plain (suc (suc left)) before [] rest e p q l =
    line_from-more (suc left) before 13 (10 ∷ rest) e (ends_crlf-cr before p)
    ∙ (line_from-last left (before ++ 13 ∷ []) 10 rest e (ends_crlf-crlf before)
        ∙ rw (without_crlf before, append-nil before) refl)
line_from-plain (suc (suc left)) before (b ∷ text) rest e p q l =
    let plain = IsPlain-snoc before b p q.0 in
    let next =
      line_from-plain (suc left) (before ++ b ∷ []) text rest e plain q.1 (omega (arith, l)) in
    line_from-more (suc left) before b (text ++ (13 ∷ 10 ∷ rest)) e
      (ends_crlf-plain (before ++ b ∷ []) plain)
    ∙ (next ∙ ap (λ x. ok (x, at rest e)) (append_assoc before (b ∷ []) text))

exact-plain :
    (out text rest : Bytes) (e : AcquisitionError)
    → exact (length text) out (at (text ++ rest) e) ≡ ok (out ++ text, at rest e)
unfolding exact byte
exact-plain out [] rest e = ap (λ x. ok (x, at rest e)) (sym (append-nil out))
exact-plain out (b ∷ text) rest e =
    exact-plain (out ++ b ∷ []) text rest e
    ∙ ap (λ x. ok (x, at rest e)) (append_assoc out (b ∷ []) text)

-- A chunk: the line that gives its size, and its bytes.
pub record Chunk : Type 0 where
  pub header : Bytes
  pub content : Bytes

-- Its line holds no carriage return, fits in 64 bytes with its end, and gives the number of its bytes,
-- which is not zero.
pub record IsChunk (c : Chunk) : Type 0 where
  pub plain : IsPlain c.header
  pub short : length c.header + 2 ≤ 64
  pub size : chunk_size c.header ≡ some (length c.content)
  pub full : 0 < length c.content

-- the same of the last line
pub record IsLast (header : Bytes) : Type 0 where
  pub plain : IsPlain header
  pub short : length header + 2 ≤ 64
  pub size : chunk_size header ≡ some 0

-- A chunked body, and what follows it on the stream.
unfoldable pub encoded : List Chunk → Bytes → Bytes → Bytes
encoded [] last rest = last ++ (13 ∷ 10 ∷ 13 ∷ 10 ∷ rest)
encoded (c ∷ chunks) last rest =
    c.header ++ (13 ∷ 10 ∷ (c.content ++ (13 ∷ 10 ∷ encoded chunks last rest)))

unfoldable pub contents : List Chunk → Bytes
contents [] = []
contents (c ∷ chunks) = c.content ++ contents chunks

read_chunk-encoded :
    (allowance : ℕ) (body : Bytes) (c : Chunk) (rest : Bytes) (e : AcquisitionError)
    → IsChunk c
    → length body + length c.content ≤ allowance
    → read_chunk allowance body (at (c.header ++ (13 ∷ 10 ∷ (c.content ++ (13 ∷ 10 ∷ rest)))) e)
      ≡ ok (Progress.more (body ++ c.content) (at rest e))
unfolding read_chunk byte
read_chunk-encoded allowance body c rest e i l =
    let head =
      line_from-plain 64 [] c.header (c.content ++ (13 ∷ 10 ∷ rest)) e tt i.plain i.short in
    let copied = exact-plain body c.content (13 ∷ 10 ∷ rest) e in
    let zero_no : (length c.content == 0) ≡ false = ground (arith, i.full) in
    let fits : ltb (allowance - length body) (length c.content) ≡ false = ground (arith, l) in
    rw (head, i.size, zero_no, fits, copied) refl

read_chunk-last :
    (allowance : ℕ) (body header rest : Bytes) (e : AcquisitionError)
    → IsLast header
    → read_chunk allowance body (at (header ++ (13 ∷ 10 ∷ 13 ∷ 10 ∷ rest)) e)
      ≡ ok (Progress.done body)
unfolding read_chunk
read_chunk-last allowance body header rest e i =
    let head = line_from-plain 64 [] header (13 ∷ 10 ∷ rest) e tt i.plain i.short in
    let end = line_from-plain max_header_bytes [] [] rest e tt tt (omega arith) in
    rw (head, i.size, end) refl

read_chunks-more :
    (fuel allowance : ℕ) (body : Bytes) (w : Wire) (next : Bytes) (v : Wire)
    → read_chunk allowance body w ≡ ok (Progress.more next v)
    → read_chunks (suc fuel) allowance body w ≡ read_chunks fuel allowance next v
unfolding read_chunks
read_chunks-more fuel allowance body w next v h = rw (h, read_chunks) refl

read_chunks-done :
    (fuel allowance : ℕ) (body : Bytes) (w : Wire) (whole : Bytes)
    → read_chunk allowance body w ≡ ok (Progress.done whole)
    → read_chunks (suc fuel) allowance body w ≡ some (ok whole)
unfolding read_chunks
read_chunks-done fuel allowance body w whole h = rw (h, read_chunks) refl

read_chunks-encoded :
    (fuel allowance : ℕ) (body : Bytes) (chunks : List Chunk) (last rest : Bytes)
    (e : AcquisitionError)
    → All IsChunk chunks
    → IsLast last
    → length body + length (contents chunks) ≤ allowance
    → length chunks < fuel
    → read_chunks fuel allowance body (at (encoded chunks last rest) e)
      ≡ some (ok (body ++ contents chunks))
unfolding encoded contents
read_chunks-encoded zero allowance body chunks last rest e i z l f = absurd (omega (arith, f))
read_chunks-encoded (suc fuel) allowance body [] last rest e i z l f =
    read_chunks-done fuel allowance body (at (encoded [] last rest) e) body
      (read_chunk-last allowance body last rest e z)
    ∙ ap (λ x. some (ok x)) (sym (append-nil body))
read_chunks-encoded (suc fuel) allowance body (c ∷ chunks) last rest e i z l f =
    let all_of = length-append c.content (contents chunks) in
    let so_far = length-append body c.content in
    let turn =
      read_chunk-encoded allowance body c (encoded chunks last rest) e i.0
        (omega (arith, l, all_of)) in
    let others =
      read_chunks-encoded fuel allowance (body ++ c.content) chunks last rest e i.1 z
        (omega (arith, l, all_of, so_far)) (omega (arith, f)) in
    read_chunks-more fuel allowance body (at (encoded (c ∷ chunks) last rest) e) (body ++ c.content)
      (at (encoded chunks last rest) e) turn
    ∙ (others ∙ ap (λ x. some (ok x)) (append_assoc body c.content (contents chunks)))

-- every chunk takes a byte at least
encoded-length :
    (chunks : List Chunk) (last rest : Bytes) → length chunks ≤ length (encoded chunks last rest)
unfolding encoded
encoded-length [] last rest = omega arith
encoded-length (c ∷ chunks) last rest =
    let tail = c.content ++ (13 ∷ 10 ∷ encoded chunks last rest) in
    omega (
      arith,
      encoded-length chunks last rest,
      length-append c.header (13 ∷ 10 ∷ tail),
      length-append c.content (13 ∷ 10 ∷ encoded chunks last rest),
    )

-- A body that is written in chunks is read back: if every size line fits in 64 bytes with its end and
-- gives the size of its chunk, no chunk is empty, the last line gives zero, and the bytes fit the
-- allowance, then the reading returns them in their order, whatever follows on the stream.
pub read_body-encoded :
    (allowance : ℕ) (chunks : List Chunk) (last rest : Bytes) (e : AcquisitionError)
    → All IsChunk chunks
    → IsLast last
    → length (contents chunks) ≤ allowance
    → read_body allowance Framing.chunked (record { stream = encoded chunks last rest; ending = e })
      ≡ some (ok (contents chunks))
unfolding read_body
read_body-encoded allowance chunks last rest e i z l =
    read_chunks-encoded (suc (length (encoded chunks last rest))) allowance [] chunks last rest e i
      z (omega (arith, l)) (omega (arith, encoded-length chunks last rest))
