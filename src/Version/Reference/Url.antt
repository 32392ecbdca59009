-- ===== src/Version/Reference/Url.antt =====
-- What `NativeEvidenceReference::new` of src/version.rs accepts.
use docker_lens.Prelude.{
  ℕ, ◌≤◌, ◌⊎◌, All, all_iff, ◌≡◌, refl, ap, ◌∙◌, ◌↔◌, true, false, not, ◌&&◌, ◌||◌, Option, none,
  some, [], ◌∷◌, ◌++◌, arith, all, nat_beq, length, ◌==◌, beq→eq, beq_refl, Bytes, Result, ok,
  nat_eq, list_eq, reject_if, >>=-eq-ok, strip_prefix, split_once, is_ascii_digit, ok_or,
  strip_prefix-append, append-strip_prefix, split_once-Joins,
}
use docker_lens.Version.Facts.{CapabilityError}
use docker_lens.Version.Reference.{
  artifact_name, NativeEvidenceReference, native_evidence_reference, is_run_number, is_sha_digit,
  run_prefix, attempts_mark,
}

-- A number has no slash, so the mark is found behind it.
split_once-number :
    (number rest : Bytes)
    → all is_ascii_digit number ≡ true
    → split_once attempts_mark (number ++ (attempts_mark ++ rest)) ≡ some (number, rest)
split_once-number [] rest h = refl
split_once-number (d ∷ number) rest h =
    let below = split_once-number number rest (ground arith) in
    let other : nat_beq b'/' d ≡ false = ground arith in
    rw (other, below, split_once, strip_prefix) refl

-- a decimal numeral without a leading zero, and a lower-case hexadecimal digit
abbrev pub IsRunNumber : Bytes → Type 0
IsRunNumber [] = ⊥
IsRunNumber (b ∷ part) = (49 ≤ b) × (b ≤ 57) × All (λ c. (48 ≤ c) × (c ≤ 57)) part

abbrev pub IsHexDigit : ℕ → Type 0
IsHexDigit b = ((48 ≤ b) × (b ≤ 57)) ⊎ ((97 ≤ b) × (b ≤ 102))

is_run_number_iff : (number : Bytes) → (is_run_number number ≡ true) ↔ IsRunNumber number
is_run_number_iff [] = ((λ h. cc), (λ h. absurd h))
is_run_number_iff (b ∷ part) =
    let digits = all_iff is_ascii_digit (λ c. (48 ≤ c) × (c ≤ 57)) part (λ c. ground arith) in
    (
      (λ h. (ground arith, ground arith, digits.0 (ground arith))),
      (λ (least, most, rest). let each = digits.1 rest in ground (arith, least, most, each)),
    )

pub is_sha_digit_iff : (sha : Bytes) → (all is_sha_digit sha ≡ true) ↔ All IsHexDigit sha
is_sha_digit_iff sha = all_iff is_sha_digit IsHexDigit sha (λ b. ground arith)

-- What a reference promises: the attempt of a run of this repository, by number, a digest of 40
-- lower-case hexadecimal digits, and the artifact of its lane.
pub record IsReference (r : NativeEvidenceReference) : Type 0 where
  pub run : Bytes
  pub attempt : Bytes
  pub url : r.run_url ≡ run_prefix ++ (run ++ (attempts_mark ++ attempt))
  pub run_number : IsRunNumber run
  pub attempt_number : IsRunNumber attempt
  pub sha_length : length r.candidate_sha ≡ 40
  pub sha_digits : All IsHexDigit r.candidate_sha
  pub artifact : r.artifact_name ≡ artifact_name r.lane

-- the constructor on the fields of a reference
abbrev pub reference_rebuild :
    NativeEvidenceReference → Result CapabilityError NativeEvidenceReference
reference_rebuild r =
    native_evidence_reference r.lane r.run_url r.candidate_sha r.artifact_name r.manifest_key
      r.record_key

number-digits : (number : Bytes) → is_run_number number ≡ true → all is_ascii_digit number ≡ true
number-digits [] h = cc
number-digits (b ∷ number) h = ground arith

ok_or-ok : {A : Type 0} (o : Option A) (e : CapabilityError) (a : A) → ok_or o e ≡ ok a → o ≡ some a
ok_or-ok none e a h = cc
ok_or-ok (some b) e a h = ground arith

accepted-IsReference :
    (r s : NativeEvidenceReference) → reference_rebuild r ≡ ok s → (r ≡ s) × IsReference r
unfolding native_evidence_reference
accepted-IsReference r s h =
    let (path, p, k1) =
      >>=-eq-ok (ok_or (strip_prefix run_prefix r.run_url) CapabilityError.invalid_evidence_run_url)
        _ h in
    let (parts, q, k2) =
      >>=-eq-ok (ok_or (split_once attempts_mark path) CapabilityError.invalid_evidence_run_url) _
        k1 in
    let (u1, e1, k3) =
      >>=-eq-ok
        (reject_if (not (is_run_number parts.0 && is_run_number parts.1))
          CapabilityError.invalid_evidence_run_url)
        _ k2 in
    let (u2, e2, k4) =
      >>=-eq-ok
        (reject_if (not (length r.candidate_sha == 40) || not (all is_sha_digit r.candidate_sha))
          CapabilityError.invalid_evidence_candidate_sha)
        _ k3 in
    let (u3, e3, k5) =
      >>=-eq-ok
        (reject_if (not (r.artifact_name == artifact_name r.lane))
          CapabilityError.invalid_evidence_artifact_name)
        _ k4 in
    let joined : path ≡ parts.0 ++ (attempts_mark ++ parts.1) =
      split_once-Joins attempts_mark path parts
        (ok_or-ok (split_once attempts_mark path) _ parts q) in
    let behind : r.run_url ≡ run_prefix ++ path =
      append-strip_prefix run_prefix r.run_url path
        (ok_or-ok (strip_prefix run_prefix r.run_url) _ path p) in
    let name : (r.artifact_name == artifact_name r.lane) ≡ true = ground arith in
    (
      ground arith,
      record {
        run = parts.0;
        attempt = parts.1;
        url = behind ∙ ap (λ x. run_prefix ++ x) joined;
        run_number = (is_run_number_iff parts.0).0 (ground arith);
        attempt_number = (is_run_number_iff parts.1).0 (ground arith);
        sha_length = ground arith;
        sha_digits = (is_sha_digit_iff r.candidate_sha).0 (ground arith);
        artifact = beq→eq r.artifact_name (artifact_name r.lane) name;
      },
    )

IsReference-accepted : (r : NativeEvidenceReference) → IsReference r → reference_rebuild r ≡ ok r
unfolding native_evidence_reference
IsReference-accepted r i =
    let path = i.run ++ (attempts_mark ++ i.attempt) in
    let run_passes = (is_run_number_iff i.run).1 i.run_number in
    let attempt_passes = (is_run_number_iff i.attempt).1 i.attempt_number in
    let digits = (is_sha_digit_iff r.candidate_sha).1 i.sha_digits in
    let p : strip_prefix run_prefix r.run_url ≡ some path =
      ap (strip_prefix run_prefix) i.url ∙ strip_prefix-append run_prefix path in
    let q : split_once attempts_mark path ≡ some (i.run, i.attempt) =
      split_once-number i.run i.attempt (number-digits i.run run_passes) in
    let size : (length r.candidate_sha == 40) ≡ true = ground (arith, i.sha_length) in
    let name : (r.artifact_name == artifact_name r.lane) ≡ true =
      ap (λ x. x == artifact_name r.lane) i.artifact ∙ beq_refl (artifact_name r.lane) in
    rw (p, q, run_passes, attempt_passes, size, digits, name) refl

-- An evidence reference is accepted exactly if its address is that of an attempt of a run of this
-- repository, both numbers without a leading zero, its candidate is 40 lower-case hexadecimal
-- digits, and its artifact is that of its lane; its fields are the arguments.
pub native_evidence_reference_iff :
    (r s : NativeEvidenceReference) → (reference_rebuild r ≡ ok s) ↔ ((r ≡ s) × IsReference r)
native_evidence_reference_iff r s =
    (accepted-IsReference r s, (λ (same, i). IsReference-accepted r i ∙ ap ok same))
