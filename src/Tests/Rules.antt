-- ===== src/Tests/Rules.antt =====
-- Policies.
use blind_overlap.Prelude.{◌≡◌, refl, true, false, some, ok}
use blind_overlap.Bytes.{ascii}
use blind_overlap.Policy.{
  PolicyProfile, SessionParams, PolicyError, insufficient_padding, strict, permissive, check,
}
use blind_overlap.Policy.Checks.{Meets, IsStricter, check_iff, check_mono}

abbrev params : SessionParams
params = record {
  has_trusted_peer = true;
  pad_to = some 128;
  ttl_secs = 60;
  has_lease = false;
  has_invite = true;
  is_intersection_mode = true;
}

check_iff_example : Meets (strict (ascii "s")) params
unfolding strict check blind_overlap.Policy.check_padding blind_overlap.Policy.check_ttl
check_iff_example = (check_iff (strict (ascii "s")) params).0 refl

strict-IsStricter : IsStricter (strict (ascii "s")) (permissive (ascii "p"))
unfolding strict permissive
strict-IsStricter = record {
  peer = λ h. cc;
  padding = λ n h. tt;
  ttl = λ n h. tt;
  lease = λ h. cc;
  invite = λ h. cc;
  mode = λ h. cc;
}

check_mono_example : check (permissive (ascii "p")) params ≡ ok tt
unfolding strict check blind_overlap.Policy.check_padding blind_overlap.Policy.check_ttl
check_mono_example =
    check_mono (strict (ascii "s")) (permissive (ascii "p")) params strict-IsStricter refl
