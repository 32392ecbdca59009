-- ===== src/Acquisition/Api/Chosen.antt =====
-- Which version the end of `negotiated_api` of src/acquisition.rs chooses.
use docker_lens.Prelude.{◌≤◌, ◌≡◌, ◌↔◌, false, Option, arith, ok}
use docker_lens.Version.Facts.{ApiVersion, api_ltb, api_min}
use docker_lens.Acquisition.Api.{choose, is_lower, max_known_api}

-- A version of the supported range that the advertised bounds admit.
pub record IsCommon (maximum : ApiVersion) (minimum : Option ApiVersion) (v : ApiVersion)
    : Type 0 where
  pub major : v.major ≡ 1
  pub least : 41 ≤ v.minor
  pub known : v.minor ≤ 49
  pub advertised : api_ltb maximum v ≡ false
  pub admitted : is_lower minimum v ≡ false

-- The greatest such version.
pub record IsGreatest (maximum : ApiVersion) (minimum : Option ApiVersion) (v : ApiVersion)
    : Type 0 where
  pub major : maximum.major ≡ 1
  pub common : IsCommon maximum minimum v
  pub greatest : (w : ApiVersion) → IsCommon maximum minimum w → w.minor ≤ v.minor

pub choose_iff :
    (maximum : ApiVersion) (minimum : Option ApiVersion) (v : ApiVersion)
    → (choose maximum minimum ≡ ok v) ↔ IsGreatest maximum minimum v
unfolding choose
choose_iff maximum minimum v = (forth, back)
  where
    forth : choose maximum minimum ≡ ok v → IsGreatest maximum minimum v
    forth h = record {
      major = ground arith;
      common = record {
        major = ground arith;
        least = ground arith;
        known = ground arith;
        advertised = ground arith;
        admitted = ground arith;
      };
      greatest = λ w c. ground (arith, c);
    }

    back : IsGreatest maximum minimum v → choose maximum minimum ≡ ok v
    back g =
        let top = api_min maximum max_known_api in
        let above : v.minor ≤ top.minor = ground arith in
        let c : IsCommon maximum minimum top = record {
          major = ground arith;
          least = omega (arith, above, g.common.least);
          known = ground arith;
          advertised = ground arith;
          admitted = ground arith;
        } in
        let below : top.minor ≤ v.minor = g.greatest top c in
        let same : top ≡ v = ground arith in ground arith
