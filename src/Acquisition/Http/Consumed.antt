-- ===== src/Acquisition/Http/Consumed.antt =====
-- How many bytes the body reading of src/acquisition.rs takes and returns.
use docker_lens.Prelude.{
  ℕ, zero, suc, ◌+◌, ◌-◌, ◌≤◌, ◌<◌, ◌≡◌, ◌≢◌, refl, inl, inr, not, some, [], ◌∷◌, ◌++◌, arith, ltb,
  length, length-append, ◌==◌, nat_eq, Bytes, Result, ok, err, ok_or, reject_if, >>=-eq-ok,
  Bool-cases,
}
use docker_lens.Acquisition.Limits.{LimitError}
use docker_lens.Acquisition.Api.{AcquisitionError}
use docker_lens.Acquisition.Http.{
  Wire, byte, ends_crlf, line_from, line, exact, chunk_size, max_header_bytes, is_empty, Progress,
  last_chunk, data_chunk, read_chunk, read_chunks, Framing, read_sized, read_body,
}

byte-length :
    (w : Wire) (b : ℕ) (v : Wire)
    → byte w.stream w.ending ≡ ok (b, v)
    → length w.stream ≡ suc (length v.stream)
unfolding byte
byte-length w b v h = go w.stream h
  where
    go : (s : Bytes) → byte s w.ending ≡ ok (b, v) → length s ≡ suc (length v.stream)
    go [] h = cc
    go (x ∷ s) h = ground arith

-- A line takes at least one byte.
line_from-length :
    (left : ℕ) (text : Bytes) (w : Wire) (out : Bytes) (v : Wire)
    → line_from left text w ≡ ok (out, v)
    → length v.stream < length w.stream
unfolding line_from
line_from-length zero text w out v h = cc
line_from-length (suc left) text w out v h =
    let (got, g, k) = >>=-eq-ok (byte w.stream w.ending) _ h in
    let one = byte-length w got.0 got.1 g in
    elim (Bool-cases (ends_crlf (text ++ got.0 ∷ []))) [
      | inl e ↦ let done = rw e at k in ground (arith, one, done)
      | inr e ↦
          let next = line_from-length left (text ++ got.0 ∷ []) got.1 out v (rw e at k) in
          omega (arith, one, next)
    ]

-- An exact read appends as many bytes as it is asked for, and takes as many.
exact-length :
    (count : ℕ) (out : Bytes) (w : Wire) (all_read : Bytes) (v : Wire)
    → exact count out w ≡ ok (all_read, v)
    → (length all_read ≡ length out + count) × (length w.stream ≡ length v.stream + count)
unfolding exact
exact-length zero out w all_read v h = ground arith
exact-length (suc count) out w all_read v h =
    let (got, g, k) = >>=-eq-ok (byte w.stream w.ending) _ h in
    let one = byte-length w got.0 got.1 g in
    let (a, b) = exact-length count (out ++ got.0 ∷ []) got.1 all_read v k in
    (omega (arith, a, length-append out (got.0 ∷ [])), omega (arith, one, b))

-- A turn with a body within the allowance leaves one, and takes a byte if the loop goes on.
pub record IsTurn (allowance : ℕ) (w : Wire) (next : Bytes) (v : Wire) : Type 0 where
  pub within : length next ≤ allowance
  pub taken : length v.stream < length w.stream

data_chunk-IsTurn :
    (allowance size : ℕ) (body : Bytes) (w : Wire) (next : Bytes) (v : Wire)
    → length body ≤ allowance
    → data_chunk allowance size body w ≡ ok (Progress.more next v)
    → IsTurn allowance w next v
data_chunk-IsTurn allowance size body w next v l h =
    let (u, e, k1) =
      >>=-eq-ok
        (reject_if (ltb (allowance - length body) size) (AcquisitionError.budget LimitError.bytes))
        _ h in
    let (read, r, k2) = >>=-eq-ok (exact size body w) _ k1 in
    let (cr, c, k3) = >>=-eq-ok (byte read.1.stream read.1.ending) _ k2 in
    let (u2, e2, k4) = >>=-eq-ok (reject_if (not (cr.0 == 13)) AcquisitionError.protocol) _ k3 in
    let (lf, f, k5) = >>=-eq-ok (byte cr.1.stream cr.1.ending) _ k4 in
    let (u3, e3, k6) = >>=-eq-ok (reject_if (not (lf.0 == 10)) AcquisitionError.protocol) _ k5 in
    let (a, b) = exact-length size body w read.0 read.1 r in
    let fits : size ≤ allowance - length body = ground arith in
    let same : read.0 ≡ next = ground arith in
    let rest : lf.1 ≡ v = ground arith in
    let n : length read.0 ≡ length next = ground (arith, same) in
    let m : length lf.1.stream ≡ length v.stream = ground (arith, rest) in
    record {
      within = omega (arith, a, fits, n, l);
      taken = omega (arith, b, m, byte-length read.1 cr.0 cr.1 c, byte-length cr.1 lf.0 lf.1 f);
    }

last_chunk-done :
    (body : Bytes) (w : Wire) (p : Progress) → last_chunk body w ≡ ok p → p ≡ Progress.done body
last_chunk-done body w p h =
    let (trailer, t, k) = >>=-eq-ok (line max_header_bytes w) _ h in
    let (u, e, m) =
      >>=-eq-ok (reject_if (not (is_empty trailer.0)) AcquisitionError.protocol) _ k in
    ground arith

data_chunk-more :
    (allowance size : ℕ) (body whole : Bytes) (w : Wire)
    → data_chunk allowance size body w ≢ ok (Progress.done whole)
data_chunk-more allowance size body whole w h =
    let (u, e, k1) =
      >>=-eq-ok
        (reject_if (ltb (allowance - length body) size) (AcquisitionError.budget LimitError.bytes))
        _ h in
    let (read, r, k2) = >>=-eq-ok (exact size body w) _ k1 in
    let (cr, c, k3) = >>=-eq-ok (byte read.1.stream read.1.ending) _ k2 in
    let (u2, e2, k4) = >>=-eq-ok (reject_if (not (cr.0 == 13)) AcquisitionError.protocol) _ k3 in
    let (lf, f, k5) = >>=-eq-ok (byte cr.1.stream cr.1.ending) _ k4 in
    let (u3, e3, k6) = >>=-eq-ok (reject_if (not (lf.0 == 10)) AcquisitionError.protocol) _ k5 in
    ground arith

-- A turn that ends the loop returns the body so far.
read_chunk-done :
    (allowance : ℕ) (body whole : Bytes) (w : Wire)
    → read_chunk allowance body w ≡ ok (Progress.done whole)
    → body ≡ whole
unfolding read_chunk
read_chunk-done allowance body whole w h =
    let (header, e, k) = >>=-eq-ok (line 64 w) _ h in
    let (size, s, m) = >>=-eq-ok (ok_or (chunk_size header.0) AcquisitionError.protocol) _ k in
    elim (Bool-cases (size == 0)) [
      | inl z ↦
          let p = last_chunk-done body header.1 (Progress.done whole) (rw z at m) in
          ground (arith, p)
      | inr z ↦ absurd (data_chunk-more allowance size body whole header.1 (rw z at m))
    ]

read_chunk-IsTurn :
    (allowance : ℕ) (body : Bytes) (w : Wire) (next : Bytes) (v : Wire)
    → length body ≤ allowance
    → read_chunk allowance body w ≡ ok (Progress.more next v)
    → IsTurn allowance w next v
unfolding read_chunk
read_chunk-IsTurn allowance body w next v l h =
    let (header, e, k) = >>=-eq-ok (line 64 w) _ h in
    let (size, s, m) = >>=-eq-ok (ok_or (chunk_size header.0) AcquisitionError.protocol) _ k in
    let head = line_from-length 64 [] w header.0 header.1 e in
    elim (Bool-cases (size == 0)) [
      | inl z ↦
          let p = last_chunk-done body header.1 (Progress.more next v) (rw z at m) in
          absurd (ground (arith, p))
      | inr z ↦
          let t = data_chunk-IsTurn allowance size body header.1 next v l (rw z at m) in
          record { within = t.within; taken = omega (arith, head, t.taken) }
    ]

-- A result that is an error, or a body within the allowance.
pub IsWithin : ℕ → Result AcquisitionError Bytes → Type 0
IsWithin allowance (ok body) = length body ≤ allowance
IsWithin allowance (err e) = Unit {0}

-- the reading ends, within the allowance
EndsWithin : ℕ → ℕ → Bytes → Wire → Type 0
EndsWithin fuel allowance body w =
    (r : Result AcquisitionError Bytes) × (read_chunks fuel allowance body w ≡ some r)
    × IsWithin allowance r

-- what one turn adds
turn-EndsWithin :
    (fuel allowance : ℕ) (body : Bytes) (w : Wire) (p : Result AcquisitionError Progress)
    → length body ≤ allowance
    → length w.stream < suc fuel
    → ((next : Bytes) (v : Wire)
        → length next ≤ allowance
        → length v.stream < fuel
        → EndsWithin fuel allowance next v)
    → read_chunk allowance body w ≡ p
    → EndsWithin (suc fuel) allowance body w
unfolding EndsWithin read_chunks IsWithin
turn-EndsWithin fuel allowance body w (err e) l f rest h = (err e, rw (h, read_chunks) refl, tt)
turn-EndsWithin fuel allowance body w (ok (Progress.done whole)) l f rest h =
    let same = read_chunk-done allowance body whole w h in
    let n : length body ≡ length whole = ground (arith, same) in
    (ok whole, rw (h, read_chunks) refl, omega (arith, n, l))
turn-EndsWithin fuel allowance body w (ok (Progress.more next v)) l f rest h =
    let t = read_chunk-IsTurn allowance body w next v l h in
    let (r, e, i) = rest next v t.within (omega (arith, t.taken, f)) in
    (r, rw (h, read_chunks) e, i)

read_chunks-EndsWithin :
    (fuel allowance : ℕ) (body : Bytes) (w : Wire)
    → length body ≤ allowance
    → length w.stream < fuel
    → EndsWithin fuel allowance body w
read_chunks-EndsWithin zero allowance body w l f = absurd (omega (arith, f))
read_chunks-EndsWithin (suc fuel) allowance body w l f =
    turn-EndsWithin fuel allowance body w (read_chunk allowance body w) l f
      (λ next v m g. read_chunks-EndsWithin fuel allowance next v m g) refl

-- Whatever a peer sends, in chunks or with a length, the reading of a body ends, and returns an error
-- or a body within the allowance.
pub read_body-IsWithin :
    (allowance : ℕ) (framing : Framing) (w : Wire)
    → (r : Result AcquisitionError Bytes) × (read_body allowance framing w ≡ some r)
      × IsWithin allowance r
unfolding read_body IsWithin EndsWithin
read_body-IsWithin allowance Framing.chunked w =
    read_chunks-EndsWithin (suc (length w.stream)) allowance [] w (omega arith) (omega arith)
read_body-IsWithin allowance (Framing.sized size) w =
    (read_sized allowance size w, refl, go (read_sized allowance size w) refl)
  where
    go :
        (r : Result AcquisitionError Bytes) → read_sized allowance size w ≡ r → IsWithin allowance r
    go (err e) h = tt
    go (ok body) h =
        let (u, e, k) =
          >>=-eq-ok (reject_if (ltb allowance size) (AcquisitionError.budget LimitError.bytes)) _
            h in
        let (read, r, m) = >>=-eq-ok (exact size [] w) _ k in
        let (a, b) = exact-length size [] w read.0 read.1 r in
        let same : read.0 ≡ body = ground arith in
        let n : length read.0 ≡ length body = ground (arith, same) in
        let fits : size ≤ allowance = ground arith in omega (arith, a, n, fits)
