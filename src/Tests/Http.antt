-- ===== src/Tests/Http.antt =====
-- Tests of the reading of bodies in src/acquisition.rs.
use docker_lens.Prelude.{◌≡◌, refl, some, [], ◌∷◌, arith, codes, Bytes, Result, ok, err, split_on}
use docker_lens.Acquisition.Limits.{LimitError}
use docker_lens.Acquisition.Api.{AcquisitionError}
use docker_lens.Acquisition.Http.{Wire, byte, exact, parse_hex, chunk_size, Framing, read_body}
use docker_lens.Acquisition.Http.Consumed.{IsWithin, read_body-IsWithin}
use docker_lens.Acquisition.Http.Encoded.{
  Chunk, IsChunk, IsLast, encoded, contents, read_body-encoded,
}

abbrev hello : Chunk
hello = record { header = codes "5;x=y"; content = codes "hello" }

abbrev bang : Chunk
bang = record { header = codes "1"; content = codes "!" }

abbrev wire : Wire
wire = record {
  stream = encoded (hello ∷ bang ∷ []) (codes "0") (codes "rest");
  ending = AcquisitionError.deadline;
}

hello-IsChunk : IsChunk hello
unfolding chunk_size parse_hex split_on
hello-IsChunk = record {
  plain = (omega arith, (omega arith, (omega arith, (omega arith, (omega arith, tt)))));
  short = omega arith;
  size = refl;
  full = omega arith;
}

bang-IsChunk : IsChunk bang
unfolding chunk_size parse_hex split_on
bang-IsChunk = record {
  plain = (omega arith, tt);
  short = omega arith;
  size = refl;
  full = omega arith;
}

zero-IsLast : IsLast (codes "0")
unfolding chunk_size parse_hex split_on
zero-IsLast = record { plain = (omega arith, tt); short = omega arith; size = refl }

read_body-encoded_example : read_body 6 Framing.chunked wire ≡ some (ok (codes "hello!"))
unfolding contents
read_body-encoded_example =
    read_body-encoded 6 (hello ∷ bang ∷ []) (codes "0") (codes "rest") AcquisitionError.deadline
      (hello-IsChunk, (bang-IsChunk, tt)) zero-IsLast (omega arith)

read_body-IsWithin_example :
    (r : Result AcquisitionError Bytes) × (read_body 5 Framing.chunked wire ≡ some r) × IsWithin 5 r
read_body-IsWithin_example = read_body-IsWithin 5 Framing.chunked wire

abbrev short : Wire
short = record { stream = codes "abc"; ending = AcquisitionError.protocol }

sized : read_body 8 (Framing.sized 2) short ≡ some (ok (codes "ab"))
unfolding read_body exact byte
sized = refl

cut_off : read_body 8 (Framing.sized 4) short ≡ some (err AcquisitionError.protocol)
unfolding read_body exact byte
cut_off = refl

too_long :
    read_body 3 (Framing.sized 4) short ≡ some (err (AcquisitionError.budget LimitError.bytes))
unfolding read_body
too_long = refl
