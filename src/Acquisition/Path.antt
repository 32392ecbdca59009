-- ===== src/Acquisition/Path.antt =====
-- The request targets of src/acquisition.rs: `encode_segment` and `request_path`. An identifier is
-- its UTF-8 bytes.
pub mod Safe
pub mod Decode
pub mod Route
use docker_lens.Prelude.{
  ℕ, zero, suc, ◌+◌, ◌-◌, ◌/◌, ◌%◌, Bool, true, false, ◌||◌, Option, none, some, List, [], ◌∷◌,
  ◌++◌, ltb, length, ◌==◌, nat_eq, Bytes, codes, is_ascii_alphanumeric, Result, ok, err, ok_or,
  ◌>>=◌, if◌then◌else◌,
}
use docker_lens.Version.Facts.{ApiVersion}
use docker_lens.Acquisition.Request.{ReadRequest}
use docker_lens.Acquisition.Api.{AcquisitionError}

abbrev pub is_unreserved : ℕ → Bool
is_unreserved b = is_ascii_alphanumeric b || b == b'-' || b == b'.' || b == b'_' || b == b'~'

-- a digit of `{:X}`
abbrev pub hex_digit : ℕ → ℕ
hex_digit n = if ltb n 10 then b'0' + n else b'A' + (n - 10)

-- the body of the loop over the bytes
abbrev pub encode_byte : ℕ → Bytes
encode_byte b =
    if is_unreserved b then b ∷ [] else b'%' ∷ hex_digit (b / 16) ∷ hex_digit (b % 16) ∷ []

abbrev pub encode : Bytes → Bytes
encode [] = []
encode (b ∷ bytes) = encode_byte b ++ encode bytes

abbrev pub max_segment_bytes : ℕ
max_segment_bytes = 1024

unfoldable pub encode_segment : Bytes → Result AcquisitionError Bytes
encode_segment id =
    if ltb max_segment_bytes (length id) then err AcquisitionError.shape else ok (encode id)

-- A `u16` in decimal: of at most five digits, without leading zeros.
unfoldable pub print_digits : ℕ → ℕ → Bytes → Bytes
print_digits zero n rest = rest
print_digits (suc fuel) n rest =
    if ltb n 10 then (b'0' + n) ∷ rest else print_digits fuel (n / 10) ((b'0' + n % 10) ∷ rest)

abbrev pub print_u16 : ℕ → Bytes
print_u16 n = print_digits 5 n []

-- `format!("/v{}.{}", api.major, api.minor)`
abbrev pub api_prefix : ApiVersion → Bytes
api_prefix api = codes "/v" ++ (print_u16 api.major ++ (codes "." ++ print_u16 api.minor))

-- the `match` on a request, whose arm for `DaemonVersion` is never reached
unfoldable pub resource_path : ReadRequest → Result AcquisitionError Bytes
resource_path ReadRequest.daemon_version = ok (codes "/version")
resource_path ReadRequest.daemon_info = ok (codes "/info")
resource_path ReadRequest.list_containers = ok (codes "/containers/json?all=1")
resource_path (ReadRequest.inspect_container id) = do
  segment ← encode_segment id
  ok (codes "/containers/" ++ (segment ++ codes "/json"))
resource_path ReadRequest.list_networks = ok (codes "/networks")
resource_path (ReadRequest.inspect_network id) = do
  segment ← encode_segment id
  ok (codes "/networks/" ++ segment)
resource_path ReadRequest.list_volumes = ok (codes "/volumes")
resource_path (ReadRequest.inspect_volume id) = do
  segment ← encode_segment id
  ok (codes "/volumes/" ++ segment)

-- behind the `unwrap` of the API version
abbrev pub versioned_path : ReadRequest → Option ApiVersion → Result AcquisitionError Bytes
versioned_path request api = do
  version ← ok_or api AcquisitionError.version
  path ← resource_path request
  ok (api_prefix version ++ path)

unfoldable pub request_path : ReadRequest → Option ApiVersion → Result AcquisitionError Bytes
request_path ReadRequest.daemon_version api = ok (codes "/version")
request_path request api = versioned_path request api
