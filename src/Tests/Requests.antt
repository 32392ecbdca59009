-- ===== src/Tests/Requests.antt =====
-- Tests of the requests of src/acquisition.rs: the negotiated API version, the request targets and
-- the selectors.
use docker_lens.Prelude.{
  ℕ, ◌≡◌, ◌≤◌, refl, ◌↔◌, inr, true, Option, none, some, [], ◌∷◌, arith, codes, Bytes, All, ok, err,
  if◌then◌else◌, ◌==◌, nat_eq, list_eq,
}
use docker_lens.Version.Facts.{ApiVersion}
use docker_lens.Acquisition.Request.{ReadRequest, Selector}
use docker_lens.Acquisition.Limits.{Limits}
use docker_lens.Acquisition.Api.{
  AcquisitionError, Json, parse_api, choose, api_value, maximum_of, minimum_of, negotiated_api,
}
use docker_lens.Acquisition.Api.Chosen.{IsGreatest}
use docker_lens.Acquisition.Api.Negotiated.{Advertises, negotiated_api_iff}
use docker_lens.Acquisition.Path.{
  encode_segment, print_digits, resource_path, request_path, max_segment_bytes,
}
use docker_lens.Acquisition.Path.Safe.{IsVisible, IsByte, HasBytes, request_path-IsVisible}
use docker_lens.Acquisition.Path.Decode.{decode, encode_segment_iff}
use docker_lens.Acquisition.Path.Route.{request_path-injective}
use docker_lens.Acquisition.Selection.{valid_literal_name, valid_volume_name, validate_selector}
use docker_lens.Acquisition.Selection.Names.{
  encode_segment-valid, IsSelectable, validate_selector_iff,
}

-- A document in place of the JSON library's: its maximum and minimum, as texts.
abbrev Document : Type 0
Document = Bytes × Option Bytes

abbrev field : Document → Bytes → Option Document
field (maximum, minimum) key =
    if key == codes "ApiVersion"
    then some (maximum, none)
    else elim minimum [ none ↦ none | some text ↦ some (text, none) ]

abbrev documents : Json Document
documents = record {
  from_slice = λ body. some (body, some (codes "1.24"));
  get = field;
  as_str = λ value. some value.0;
}

abbrev api : ℕ → ApiVersion
api minor = record { major = 1; minor = minor }

newer : negotiated_api documents (codes "1.52") ≡ ok (api 49)
unfolding negotiated_api maximum_of minimum_of api_value parse_api choose
newer = refl

older : negotiated_api documents (codes "1.40") ≡ err AcquisitionError.version
unfolding negotiated_api maximum_of minimum_of api_value parse_api choose
older = refl

negotiated_api_iff_example :
    (maximum : ApiVersion) × (minimum : Option ApiVersion) × Advertises documents
      (codes "1.52")
      maximum
      minimum
    × IsGreatest maximum minimum (api 49)
negotiated_api_iff_example = (negotiated_api_iff documents (codes "1.52") (api 49)).0 newer

abbrev inspect : ReadRequest
inspect = ReadRequest.inspect_container (codes "a/b")

inspect-HasBytes : HasBytes inspect
unfolding HasBytes
inspect-HasBytes = (omega arith, (omega arith, (omega arith, tt)))

abbrev target : Bytes
target = codes "/v1.41/containers/a%2Fb/json"

escaped : request_path inspect (some (api 41)) ≡ ok target
unfolding request_path resource_path encode_segment print_digits
escaped = refl

request_path-IsVisible_example : All IsVisible target
request_path-IsVisible_example =
    request_path-IsVisible inspect (some (api 41)) target inspect-HasBytes escaped

request_path-injective_example : inspect ≡ inspect
request_path-injective_example =
    request_path-injective inspect inspect (api 41) target inspect-HasBytes inspect-HasBytes escaped
      escaped

ab-IsByte : All IsByte (codes "a b")
ab-IsByte = (omega arith, (omega arith, (omega arith, tt)))

encode_segment_iff_example :
    ((out : Bytes) → encode_segment (codes "a b") ≡ ok out → decode out ≡ codes "a b")
    × ((3 ≤ max_segment_bytes) ↔ ((out : Bytes) × (encode_segment (codes "a b") ≡ ok out)))
encode_segment_iff_example = encode_segment_iff (codes "a b") ab-IsByte

data_valid : valid_volume_name (codes "data_1") ≡ true
unfolding valid_volume_name valid_literal_name
data_valid = refl

encode_segment-valid_example : encode_segment (codes "data_1") ≡ ok (codes "data_1")
encode_segment-valid_example = encode_segment-valid (codes "data_1") (inr data_valid)

abbrev limits : Limits
limits = record {
  max_requests = 4;
  max_selected_resources = 2;
  max_expansions = 2;
  max_response_bytes = 8;
  max_total_bytes = 12;
  max_elapsed = 1000;
}

abbrev volumes : Selector
volumes = Selector.volume_names (codes "data_1" ∷ [])

volumes_pass : validate_selector volumes limits ≡ ok tt
unfolding validate_selector valid_volume_name valid_literal_name
volumes_pass = refl

slash_fails :
    validate_selector (Selector.volume_names (codes "/data" ∷ [])) limits
    ≡ err AcquisitionError.selection
unfolding validate_selector valid_volume_name valid_literal_name
slash_fails = refl

validate_selector_iff_example : IsSelectable volumes limits
validate_selector_iff_example = (validate_selector_iff volumes limits).0 volumes_pass
