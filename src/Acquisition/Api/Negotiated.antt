-- ===== src/Acquisition/Api/Negotiated.antt =====
-- What `negotiated_api` of src/acquisition.rs returns.
use docker_lens.Prelude.{
  ◌≡◌, ◌↔◌, inl, inr, Option, none, some, arith, Bytes, codes, ok, ok_or, >>=-eq-ok, Option-cases,
}
use docker_lens.Version.Facts.{ApiVersion}
use docker_lens.Acquisition.Api.{
  AcquisitionError, Json, api_value, maximum_of, minimum_of, negotiated_api,
}
use docker_lens.Acquisition.Api.Text.{IsApiText, parse_api_iff}
use docker_lens.Acquisition.Api.Chosen.{IsGreatest, choose_iff}

module _ {Value : Type 0} (json : Json Value) where
  -- The field of the document is a text that says the version.
  pub record Says (document : Value) (key : Bytes) (v : ApiVersion) : Type 0 where
    pub value : Value
    pub text : Bytes
    pub field : json.get document key ≡ some value
    pub string : json.as_str value ≡ some text
    pub version : IsApiText text v

  -- The field of the document is absent if there is no version, and says the version if there is one.
  abbrev pub MaySay : Value → Bytes → Option ApiVersion → Type 0
  MaySay document key none = json.get document key ≡ none
  MaySay document key (some v) = Says document key v

  -- The answer is a document that says its maximum, and its minimum if it has the field.
  pub record Advertises (body : Bytes) (maximum : ApiVersion) (minimum : Option ApiVersion)
      : Type 0 where
    pub document : Value
    pub reads : json.from_slice body ≡ some document
    pub says_maximum : Says document (codes "ApiVersion") maximum
    pub says_minimum : MaySay document (codes "MinAPIVersion") minimum

  read_field :
      (document value : Value) (key : Bytes) (v : ApiVersion)
      → json.get document key ≡ some value
      → api_value json value ≡ some v
      → Says document key v
  unfolding api_value
  read_field document value key v field h = elim (Option-cases (json.as_str value)) [
    | inl e ↦ absurd (ground (arith, e))
    | inr (text, e) ↦ record {
      value = value;
      text = text;
      field = field;
      string = e;
      version = (parse_api_iff text v).0 (ground (arith, e));
    }
  ]

  value_back :
      (document : Value) (key : Bytes) (v : ApiVersion) (s : Says document key v)
      → api_value json s.value ≡ some v
  unfolding api_value
  value_back document key v s =
      let read = (parse_api_iff s.text v).1 s.version in ground (arith, s.string, read)

  maximum_of_iff :
      (document : Value) (v : ApiVersion)
      → (maximum_of json document ≡ ok v) ↔ Says document (codes "ApiVersion") v
  unfolding maximum_of
  maximum_of_iff document v = (
    (λ h. elim (Option-cases (json.get document (codes "ApiVersion"))) [
      | inl e ↦ absurd (ground (arith, e))
      | inr (value, e) ↦ read_field document value (codes "ApiVersion") v e (ground (arith, e))
    ]),
    (λ s. let read = value_back document (codes "ApiVersion") v s in ground (arith, s.field, read)),
  )

  minimum_of_sound :
      (document : Value) (m : Option ApiVersion)
      → minimum_of json document ≡ ok m
      → MaySay document (codes "MinAPIVersion") m
  unfolding minimum_of
  minimum_of_sound document none h = ground arith
  minimum_of_sound document (some v) h =
      elim (Option-cases (json.get document (codes "MinAPIVersion"))) [
        | inl e ↦ absurd (ground (arith, e))
        | inr (value, e) ↦ read_field document value (codes "MinAPIVersion") v e (ground (arith, e))
      ]

  minimum_of_complete :
      (document : Value) (m : Option ApiVersion)
      → MaySay document (codes "MinAPIVersion") m
      → minimum_of json document ≡ ok m
  unfolding minimum_of
  minimum_of_complete document none h = ground (arith, h)
  minimum_of_complete document (some v) s =
      let read = value_back document (codes "MinAPIVersion") v s in ground (arith, s.field, read)

  negotiated_api_sound :
      (body : Bytes) (v : ApiVersion)
      → negotiated_api json body ≡ ok v
      → (maximum : ApiVersion) × (minimum : Option ApiVersion) × Advertises body maximum minimum
        × IsGreatest maximum minimum v
  unfolding negotiated_api
  negotiated_api_sound body v h =
      let (document, d, k) =
        >>=-eq-ok (ok_or (json.from_slice body) AcquisitionError.version) _ h in
      let (maximum, a, l) = >>=-eq-ok (maximum_of json document) _ k in
      let (minimum, i, m) = >>=-eq-ok (minimum_of json document) _ l in
      (
        maximum,
        minimum,
        record {
          document = document;
          reads = ground arith;
          says_maximum = (maximum_of_iff document maximum).0 a;
          says_minimum = minimum_of_sound document minimum i;
        },
        (choose_iff maximum minimum v).0 m,
      )

  negotiated_api_complete :
      (body : Bytes) (v maximum : ApiVersion) (minimum : Option ApiVersion)
      → Advertises body maximum minimum
      → IsGreatest maximum minimum v
      → negotiated_api json body ≡ ok v
  unfolding negotiated_api
  negotiated_api_complete body v maximum minimum a g =
      let high = (maximum_of_iff a.document maximum).1 a.says_maximum in
      let low = minimum_of_complete a.document minimum a.says_minimum in
      let c = (choose_iff maximum minimum v).1 g in ground (arith, a.reads, high, low, c)

  -- The negotiation succeeds with a version exactly when the answer is a document whose `ApiVersion` is
  -- a text of two decimal numbers with a dot between them, both within 16 bits and the first one
  -- positive, whose `MinAPIVersion` is such a text too or absent, and the version is the greatest of
  -- 1.41 to 1.49 that is not above the first of the two and not below the second, the first being
  -- of major version 1.
  pub negotiated_api_iff :
      (body : Bytes) (v : ApiVersion)
      → (negotiated_api json body ≡ ok v) ↔ (
          (maximum : ApiVersion) × (minimum : Option ApiVersion) × Advertises body maximum minimum
          × IsGreatest maximum minimum v)
  negotiated_api_iff body v = (
    negotiated_api_sound body v,
    (λ (maximum, minimum, a, g). negotiated_api_complete body v maximum minimum a g),
  )
