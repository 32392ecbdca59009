-- ===== src/Tests/Decoder.antt =====
-- Tests of the mount modes of src/decoder_mount_mode.rs.
use docker_lens.Prelude.{◌≡◌, refl, ◌↔◌, none, some, codes, Bytes, ok, err, split_on}
use docker_lens.Observation.{Availability, Origin, BindRelabel, FieldPath, Observed, observed}
use docker_lens.Decoder.MountMode.{
  DecodeError, MountAccess, MountModeInterpretation, classify, apply, scan, parse, interpret,
}
use docker_lens.Decoder.MountMode.Parse.{IsMode, parse_iff, interpret-keeps}

abbrev shared_read_only : MountModeInterpretation
shared_read_only =
    MountModeInterpretation.supported (some MountAccess.read_only) (some BindRelabel.shared)

either_order : parse (codes "z,ro") (FieldPath.mount 3) ≡ parse (codes "ro,z") (FieldPath.mount 3)
unfolding parse scan classify apply split_on
either_order = refl

accepted : parse (codes "ro,z") (FieldPath.mount 3) ≡ ok shared_read_only
unfolding parse scan classify apply split_on
accepted = refl

both_relabels_fail :
    parse (codes "z,Z") (FieldPath.mount 3) ≡ err (DecodeError.invalid_value (FieldPath.mount 3))
unfolding parse scan classify apply split_on
both_relabels_fail = refl

empty_token_fails :
    parse (codes "ro,") (FieldPath.mount 3) ≡ err (DecodeError.invalid_value (FieldPath.mount 3))
unfolding parse scan classify apply split_on
empty_token_fails = refl

unknown_option :
    parse (codes "ro,fancy") (FieldPath.mount 3) ≡ ok MountModeInterpretation.unsupported
unfolding parse scan classify apply split_on
unknown_option = refl

parse_iff_example : IsMode (codes "ro,z") shared_read_only
parse_iff_example = (parse_iff (codes "ro,z") (FieldPath.mount 3) shared_read_only).0 accepted

abbrev mode : Observed Bytes
mode = observed (codes "ro,z") Availability.present Origin.configured

interpret-keeps_example :
    ((e : DecodeError)
      → interpret mode (FieldPath.mount 3) ≡ err e
      → e ≡ DecodeError.invalid_value (FieldPath.mount 3))
    × ((m : Observed MountModeInterpretation)
        → interpret mode (FieldPath.mount 3) ≡ ok m
        → (m.availability ≡ mode.availability)
          × (m.origin ≡ mode.origin)
          × ((m.value ≡ none) ↔ (mode.value ≡ none)))
interpret-keeps_example = interpret-keeps mode (FieldPath.mount 3)
