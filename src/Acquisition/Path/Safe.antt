-- ===== src/Acquisition/Path/Safe.antt =====
-- What bytes the request targets of src/acquisition.rs hold.
use docker_lens.Prelude.{
  ℕ, zero, suc, ◌+◌, ◌/◌, ◌%◌, ◌≤◌, ◌<◌, ◌≡◌, refl, inl, inr, subst, Bool, true, Option, [], ◌∷◌,
  ◌++◌, arith, leb, ◌&&◌, all, ltb, Bytes, codes, Result, ok, ok_or, All, ◌>>=◌, >>=-eq-ok,
  Bool-cases,
}
use docker_lens.Version.Facts.{ApiVersion}
use docker_lens.Acquisition.Request.{ReadRequest}
use docker_lens.Acquisition.Api.{AcquisitionError}
use docker_lens.Acquisition.Path.{
  is_unreserved, hex_digit, encode_byte, encode, encode_segment, print_digits, print_u16,
  api_prefix, resource_path, versioned_path, request_path,
}

-- a visible ASCII character: no blank, no end of line, no control
pub record IsVisible (b : ℕ) : Type 0 where
  pub least : 33 ≤ b
  pub most : b ≤ 126

abbrev pub IsByte : ℕ → Type 0
IsByte b = b < 256

-- The identifier of a request consists of bytes.
unfoldable pub HasBytes : ReadRequest → Type 0
HasBytes (ReadRequest.inspect_container id) = All IsByte id
HasBytes (ReadRequest.inspect_network id) = All IsByte id
HasBytes (ReadRequest.inspect_volume id) = All IsByte id
HasBytes _ = Unit {0}

pub All-append : (P : ℕ → Type 0) (xs ys : Bytes) → All P xs → All P ys → All P (xs ++ ys)
All-append P [] ys p q = q
All-append P (x ∷ xs) ys p q = (p.0, All-append P xs ys p.1 q)

hex_digit-IsVisible : (n : ℕ) → n < 16 → IsVisible (hex_digit n)
hex_digit-IsVisible n h = record { least = ground arith; most = ground arith }

encode_byte-IsVisible : (b : ℕ) → IsByte b → All IsVisible (encode_byte b)
encode_byte-IsVisible b h = elim (Bool-cases (is_unreserved b)) [
  | inl e ↦
      let v : IsVisible b = record { least = ground arith; most = ground arith } in rw e (v, tt)
  | inr e ↦
      let mark : IsVisible b'%' = record { least = omega arith; most = omega arith } in
      rw e (
        mark,
        (
          hex_digit-IsVisible (b / 16) (omega arith),
          (hex_digit-IsVisible (b % 16) (omega arith), tt),
        ),
      )
]

encode-IsVisible : (id : Bytes) → All IsByte id → All IsVisible (encode id)
encode-IsVisible [] h = tt
encode-IsVisible (b ∷ id) h =
    All-append IsVisible (encode_byte b) (encode id) (encode_byte-IsVisible b h.0)
      (encode-IsVisible id h.1)

encode_segment-IsVisible :
    (id out : Bytes) → All IsByte id → encode_segment id ≡ ok out → All IsVisible out
unfolding encode_segment
encode_segment-IsVisible id out h e =
    let same : encode id ≡ out = ground arith in subst (All IsVisible) same (encode-IsVisible id h)

print_digits-IsVisible :
    (fuel n : ℕ) (rest : Bytes) → All IsVisible rest → All IsVisible (print_digits fuel n rest)
unfolding print_digits
print_digits-IsVisible zero n rest h = h
print_digits-IsVisible (suc fuel) n rest h = elim (Bool-cases (ltb n 10)) [
  | inl e ↦
      let v : IsVisible (b'0' + n) = record { least = omega arith; most = ground arith } in
      rw e (v, h)
  | inr e ↦
      let v : IsVisible (b'0' + n % 10) = record { least = omega arith; most = omega arith } in
      rw e (print_digits-IsVisible fuel (n / 10) ((b'0' + n % 10) ∷ rest) (v, h))
]

is_visible : ℕ → Bool
is_visible b = leb 33 b && leb b 126

-- A text that is known is tested.
text-IsVisible : (text : Bytes) → all is_visible text ≡ true → All IsVisible text
unfolding is_visible
text-IsVisible [] h = tt
text-IsVisible (b ∷ text) h =
    let v : IsVisible b = record { least = ground arith; most = ground arith } in
    (v, text-IsVisible text (ground arith))

ok-IsVisible :
    (text out : Bytes)
    → All IsVisible text
    → (◌≡◌ {A = Result AcquisitionError Bytes} (ok text) (ok out))
    → All IsVisible out
ok-IsVisible text out v e = let same : text ≡ out = ground arith in subst (All IsVisible) same v

segment-IsVisible :
    (wrap : Bytes → Bytes) (id out : Bytes)
    → ((segment : Bytes) → All IsVisible segment → All IsVisible (wrap segment))
    → All IsByte id
    → (encode_segment id >>= λ segment. ok (wrap segment)) ≡ ok out
    → All IsVisible out
segment-IsVisible wrap id out w h e =
    let (segment, s, k) = >>=-eq-ok (encode_segment id) _ e in
    ok-IsVisible (wrap segment) out (w segment (encode_segment-IsVisible id segment h s)) k

api_prefix-IsVisible : (api : ApiVersion) → All IsVisible (api_prefix api)
unfolding is_visible
api_prefix-IsVisible api = All-append IsVisible (codes "/v") _ (text-IsVisible (codes "/v") refl) (
    All-append IsVisible (print_u16 api.major) _ (print_digits-IsVisible 5 api.major [] tt) (
      All-append IsVisible (codes ".") _ (text-IsVisible (codes ".") refl)
        (print_digits-IsVisible 5 api.minor [] tt)))

resource_path-IsVisible :
    (request : ReadRequest) (out : Bytes)
    → HasBytes request
    → resource_path request ≡ ok out
    → All IsVisible out
unfolding resource_path HasBytes is_visible
resource_path-IsVisible ReadRequest.daemon_version out h e =
    ok-IsVisible (codes "/version") out (text-IsVisible (codes "/version") refl) e
resource_path-IsVisible ReadRequest.daemon_info out h e =
    ok-IsVisible (codes "/info") out (text-IsVisible (codes "/info") refl) e
resource_path-IsVisible ReadRequest.list_containers out h e =
    ok-IsVisible (codes "/containers/json?all=1") out
      (text-IsVisible (codes "/containers/json?all=1") refl) e
resource_path-IsVisible ReadRequest.list_networks out h e =
    ok-IsVisible (codes "/networks") out (text-IsVisible (codes "/networks") refl) e
resource_path-IsVisible ReadRequest.list_volumes out h e =
    ok-IsVisible (codes "/volumes") out (text-IsVisible (codes "/volumes") refl) e
resource_path-IsVisible (ReadRequest.inspect_container id) out h e =
    segment-IsVisible (λ s. codes "/containers/" ++ (s ++ codes "/json")) id out
      (λ s v.
        All-append IsVisible (codes "/containers/") (s ++ codes "/json")
          (text-IsVisible (codes "/containers/") refl)
          (All-append IsVisible s (codes "/json") v (text-IsVisible (codes "/json") refl)))
      h e
resource_path-IsVisible (ReadRequest.inspect_network id) out h e =
    segment-IsVisible (λ s. codes "/networks/" ++ s) id out
      (λ s v.
        All-append IsVisible (codes "/networks/") s (text-IsVisible (codes "/networks/") refl) v)
      h e
resource_path-IsVisible (ReadRequest.inspect_volume id) out h e =
    segment-IsVisible (λ s. codes "/volumes/" ++ s) id out
      (λ s v.
        All-append IsVisible (codes "/volumes/") s (text-IsVisible (codes "/volumes/") refl) v)
      h e

versioned_path-IsVisible :
    (request : ReadRequest) (api : Option ApiVersion) (out : Bytes)
    → HasBytes request
    → versioned_path request api ≡ ok out
    → All IsVisible out
versioned_path-IsVisible request api out h e =
    let (version, a, k) = >>=-eq-ok (ok_or api AcquisitionError.version) _ e in
    let (path, r, l) = >>=-eq-ok (resource_path request) _ k in
    ok-IsVisible (api_prefix version ++ path) out
      (All-append IsVisible (api_prefix version) path (api_prefix-IsVisible version)
        (resource_path-IsVisible request path h r))
      l

-- Whatever bytes an identifier has, a request target holds visible ASCII characters only: no blank or
-- line end of an identifier reaches the request line.
pub request_path-IsVisible :
    (request : ReadRequest) (api : Option ApiVersion) (out : Bytes)
    → HasBytes request
    → request_path request api ≡ ok out
    → All IsVisible out
unfolding request_path is_visible
request_path-IsVisible ReadRequest.daemon_version api out h e =
    ok-IsVisible (codes "/version") out (text-IsVisible (codes "/version") refl) e
request_path-IsVisible request api out h e = versioned_path-IsVisible request api out h e
