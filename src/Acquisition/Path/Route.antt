-- ===== src/Acquisition/Path/Route.antt =====
-- A reader of the request targets of src/acquisition.rs, as the other side of `request_path`.
use docker_lens.Prelude.{
  ok-eq_ok, ℕ, zero, suc, ◌+◌, ◌-◌, ◌≡◌, refl, sym, ap, ◌∙◌, true, false, Option, none, some, [],
  ◌∷◌, ◌++◌, arith, length, length-append, take, take-append, ◌==◌, nat_eq, list_eq, if◌then◌else◌,
  Bytes, codes, strip_prefix, Result, ok, >>=-eq-ok, beq_refl, inl, inr, some-eq_some, Bool-cases,
  ◌≢◌, ◌≤◌, ◌/◌, ◌%◌, ltb,
}
use mathlib.Core.List.{append_cancel_left}
use docker_lens.Version.Facts.{ApiVersion}
use docker_lens.Acquisition.Request.{ReadRequest, is_daemon_version}
use docker_lens.Acquisition.Api.{AcquisitionError}
use docker_lens.Acquisition.Path.{
  encode_segment, print_digits, api_prefix, resource_path, versioned_path, request_path,
}
use docker_lens.Acquisition.Path.Safe.{HasBytes}
use docker_lens.Acquisition.Path.Decode.{decode, encode_segment_iff}

abbrev drop : ℕ → Bytes → Bytes
drop zero text = text
drop (suc n) [] = []
drop (suc n) (b ∷ text) = drop n text

-- the part in front of a suffix
strip_suffix : Bytes → Bytes → Option Bytes
strip_suffix mark text =
    if drop (length text - length mark) text == mark
    then some (take (length text - length mark) text)
    else none

drop-append : (s t : Bytes) → drop (length s) (s ++ t) ≡ t
drop-append [] t = refl
drop-append (b ∷ s) t = drop-append s t

strip_suffix-append : (s mark : Bytes) → strip_suffix mark (s ++ mark) ≡ some s
unfolding strip_suffix
strip_suffix-append s mark =
    let n : length (s ++ mark) - length mark ≡ length s = omega (arith, length-append s mark) in
    rw (n, take-append s mark, drop-append s mark, beq_refl mark) refl

-- below `/containers/`
abbrev route_container : Bytes → Option ReadRequest
route_container rest = elim (strip_suffix (codes "/json") rest) [
  | some segment ↦ some (ReadRequest.inspect_container (decode segment))
  | none ↦ if rest == codes "json?all=1" then some ReadRequest.list_containers else none
]

route_container-append :
    (s : Bytes)
    → route_container (s ++ codes "/json") ≡ some (ReadRequest.inspect_container (decode s))
route_container-append s = rw (route_container, strip_suffix-append s (codes "/json")) refl

-- a path without the parts that are known
abbrev route_list : Bytes → Option ReadRequest
route_list path =
    if path == codes "/info"
    then some ReadRequest.daemon_info
    else if path == codes "/networks"
    then some ReadRequest.list_networks
    else if path == codes "/volumes"
    then some ReadRequest.list_volumes
    else if path == codes "/version"
    then some ReadRequest.daemon_version
    else none

-- What the target of a resource asks for.
pub route : Bytes → Option ReadRequest
unfolding strip_suffix
route path = elim (strip_prefix (codes "/containers/") path) [
  | some rest ↦ route_container rest
  | none ↦ elim (strip_prefix (codes "/networks/") path) [
    | some rest ↦ some (ReadRequest.inspect_network (decode rest))
    | none ↦ elim (strip_prefix (codes "/volumes/") path) [
      | some rest ↦ some (ReadRequest.inspect_volume (decode rest))
      | none ↦ route_list path
    ]
  ]
]

routed :
    (path out : Bytes) (request : ReadRequest)
    → (◌≡◌ {A = Result AcquisitionError Bytes} (ok path) (ok out))
    → route path ≡ some request
    → route out ≡ some request
routed path out request e h = ap route (sym (ok-eq_ok e)) ∙ h

route-resource_path :
    (request : ReadRequest) (out : Bytes)
    → HasBytes request
    → resource_path request ≡ ok out
    → route out ≡ some request
unfolding resource_path HasBytes route strip_suffix
route-resource_path ReadRequest.daemon_version out h e =
    routed (codes "/version") out ReadRequest.daemon_version e refl
route-resource_path ReadRequest.daemon_info out h e =
    routed (codes "/info") out ReadRequest.daemon_info e refl
route-resource_path ReadRequest.list_containers out h e =
    routed (codes "/containers/json?all=1") out ReadRequest.list_containers e refl
route-resource_path ReadRequest.list_networks out h e =
    routed (codes "/networks") out ReadRequest.list_networks e refl
route-resource_path ReadRequest.list_volumes out h e =
    routed (codes "/volumes") out ReadRequest.list_volumes e refl
route-resource_path (ReadRequest.inspect_container id) out h e =
    let (s, d, k) = >>=-eq-ok (encode_segment id) _ e in
    let read : decode s ≡ id = (encode_segment_iff id h).0 s d in
    routed (codes "/containers/" ++ (s ++ codes "/json")) out (ReadRequest.inspect_container id) k
      (route_container-append s ∙ ap (λ x. some (ReadRequest.inspect_container x)) read)
route-resource_path (ReadRequest.inspect_network id) out h e =
    let (s, d, k) = >>=-eq-ok (encode_segment id) _ e in
    let read : decode s ≡ id = (encode_segment_iff id h).0 s d in
    routed (codes "/networks/" ++ s) out (ReadRequest.inspect_network id) k
      (ap (λ x. some (ReadRequest.inspect_network x)) read)
route-resource_path (ReadRequest.inspect_volume id) out h e =
    let (s, d, k) = >>=-eq-ok (encode_segment id) _ e in
    let read : decode s ≡ id = (encode_segment_iff id h).0 s d in
    routed (codes "/volumes/" ++ s) out (ReadRequest.inspect_volume id) k
      (ap (λ x. some (ReadRequest.inspect_volume x)) read)

resource_path-injective :
    (r s : ReadRequest) (out : Bytes)
    → HasBytes r
    → HasBytes s
    → resource_path r ≡ ok out
    → resource_path s ≡ ok out
    → r ≡ s
resource_path-injective r s out h k e f =
    some-eq_some (sym (route-resource_path r out h e) ∙ route-resource_path s out k f)

-- the number's first digit
print_digits-head :
    (fuel n : ℕ) (rest : Bytes)
    → (d : ℕ) × (t : Bytes) × (print_digits (suc fuel) n rest ≡ d ∷ t) × (d ≤ b'9')
unfolding print_digits
print_digits-head zero n rest = elim (Bool-cases (ltb n 10)) [
  | inl e ↦ (b'0' + n, rest, rw e refl, ground arith)
  | inr e ↦ (b'0' + n % 10, rest, rw e refl, omega arith)
]
print_digits-head (suc fuel) n rest = elim (Bool-cases (ltb n 10)) [
  | inl e ↦ (b'0' + n, rest, rw e refl, ground arith)
  | inr e ↦
      let (d, t, p, l) = print_digits-head fuel (n / 10) ((b'0' + n % 10) ∷ rest) in
      (d, t, rw e p, l)
]

api_prefix-version : (api : ApiVersion) (path : Bytes) → api_prefix api ++ path ≢ codes "/version"
api_prefix-version api path h =
    let (d, t, p, l) = print_digits-head 4 api.major [] in let q = rw p at h in ground (arith, q)

versioned_path-ok :
    (request : ReadRequest) (version : ApiVersion) (out : Bytes)
    → versioned_path request (some version) ≡ ok out
    → (path : Bytes) × (resource_path request ≡ ok path) × (api_prefix version ++ path ≡ out)
versioned_path-ok request version out e =
    let (path, r, k) = >>=-eq-ok (resource_path request) _ e in (path, r, ok-eq_ok k)

versioned_path-injective :
    (r s : ReadRequest) (version : ApiVersion) (out : Bytes)
    → HasBytes r
    → HasBytes s
    → versioned_path r (some version) ≡ ok out
    → versioned_path s (some version) ≡ ok out
    → r ≡ s
versioned_path-injective r s version out h k e f =
    let (p, rp, pe) = versioned_path-ok r version out e in
    let (q, sq, qe) = versioned_path-ok s version out f in
    let same : p ≡ q = append_cancel_left (api_prefix version) p q (pe ∙ sym qe) in
    resource_path-injective r s p h k rp (sq ∙ ap ok (sym same))

versioned_path-version :
    (request : ReadRequest) (version : ApiVersion)
    → versioned_path request (some version) ≢ ok (codes "/version")
versioned_path-version request version e =
    let (path, r, p) = versioned_path-ok request version (codes "/version") e in
    api_prefix-version version path p

is_daemon_version-eq :
    (r : ReadRequest) → is_daemon_version r ≡ true → r ≡ ReadRequest.daemon_version
is_daemon_version-eq r h = ground arith

request_path-versioned :
    (r : ReadRequest) (api : Option ApiVersion)
    → is_daemon_version r ≡ false
    → request_path r api ≡ versioned_path r api
unfolding request_path
request_path-versioned r api h = ground arith

request_path-version :
    (r : ReadRequest) (api : Option ApiVersion)
    → is_daemon_version r ≡ true
    → request_path r api ≡ ok (codes "/version")
unfolding request_path
request_path-version r api h = rw (is_daemon_version-eq r h) refl

-- Two requests, whose identifiers are bytes, have the same target under one API version only if they
-- are the same request.
pub request_path-injective :
    (r s : ReadRequest) (version : ApiVersion) (out : Bytes)
    → HasBytes r
    → HasBytes s
    → request_path r (some version) ≡ ok out
    → request_path s (some version) ≡ ok out
    → r ≡ s
request_path-injective r s version out h k e f =
    let vr = request_path-versioned r (some version) in
    let vs = request_path-versioned s (some version) in
    elim (Bool-cases (is_daemon_version r)) [
      | inl a ↦
          let top = request_path-version r (some version) a in
          elim (Bool-cases (is_daemon_version s)) [
            | inl b ↦ is_daemon_version-eq r a ∙ sym (is_daemon_version-eq s b)
            | inr b ↦ absurd (versioned_path-version s version (sym (vs b) ∙ (f ∙ (sym e ∙ top))))
          ]
      | inr a ↦ elim (Bool-cases (is_daemon_version s)) [
        | inl b ↦
            let top = request_path-version s (some version) b in
            absurd (versioned_path-version r version (sym (vr a) ∙ (e ∙ (sym f ∙ top))))
        | inr b ↦ versioned_path-injective r s version out h k (sym (vr a) ∙ e) (sym (vs b) ∙ f)
      ]
    ]
