-- ===== src/Fmod/Features.antt =====
-- nfsmw_android_cpu_features of runtime/src/fmod_cpu.h, and nfsmw_fmod_select_output of
-- runtime/src/fmod_output.h, whose log lines have no effect here.
use nfsmw_arm_linux.Prelude.{
  ℕ, ◌≡◌, ◌≢◌, ◌↔◌, ◌⊎◌, refl, Bool, true, false, ◌&&◌, not, if◌then◌else◌, ◌==◌, bit_and, bit_or,
  arith,
}

-- A value of `features` with some bits set if the mask meets `hwcap`.
unfoldable pub add_feature : (hwcap mask feature features : ℕ) → ℕ
add_feature hwcap mask feature features =
    if not (bit_and hwcap mask == 0) then bit_or features feature else features

-- VFPv2, VFPv3 and NEON, in this order, over ARMv7.
unfoldable pub nfsmw_android_cpu_features : (hwcap : ℕ) → ℕ
nfsmw_android_cpu_features hwcap =
    add_feature hwcap 4096 4 (add_feature hwcap 8192 2 (add_feature hwcap 64 8 1))

-- The feature word that three tests give.
abbrev features_of : (no_vfp2 no_vfp3 no_neon : Bool) → ℕ
features_of no_vfp2 no_vfp3 no_neon =
    let first = if not no_vfp2 then bit_or 1 8 else 1 in
    let second = if not no_vfp3 then bit_or first 2 else first in
    if not no_neon then bit_or second 4 else second

features_of-bits :
    (a b c : Bool)
    → ((bit_and (features_of a b c) 8 == 0) ≡ a)
      × ((bit_and (features_of a b c) 2 == 0) ≡ b)
      × ((bit_and (features_of a b c) 4 == 0) ≡ c)
      × ((bit_and (features_of a b c) 1 == 0) ≡ false)
features_of-bits true true true = (refl, refl, refl, refl)
features_of-bits true true false = (refl, refl, refl, refl)
features_of-bits true false true = (refl, refl, refl, refl)
features_of-bits true false false = (refl, refl, refl, refl)
features_of-bits false true true = (refl, refl, refl, refl)
features_of-bits false true false = (refl, refl, refl, refl)
features_of-bits false false true = (refl, refl, refl, refl)
features_of-bits false false false = (refl, refl, refl, refl)

-- For each HWCAP word, the Android feature word lacks the VFPv2 bit, the VFPv3 bit and the NEON bit
-- exactly if the HWCAP word lacks bits 6, 13 and 12, and it never lacks the ARMv7 bit.
pub nfsmw_android_cpu_features-bits :
    (hwcap : ℕ)
    → ((bit_and (nfsmw_android_cpu_features hwcap) 8 == 0) ≡ (bit_and hwcap 64 == 0))
      × ((bit_and (nfsmw_android_cpu_features hwcap) 2 == 0) ≡ (bit_and hwcap 8192 == 0))
      × ((bit_and (nfsmw_android_cpu_features hwcap) 4 == 0) ≡ (bit_and hwcap 4096 == 0))
      × ((bit_and (nfsmw_android_cpu_features hwcap) 1 == 0) ≡ false)
unfolding nfsmw_android_cpu_features add_feature
nfsmw_android_cpu_features-bits hwcap =
    features_of-bits (bit_and hwcap 64 == 0) (bit_and hwcap 8192 == 0) (bit_and hwcap 4096 == 0)

-- `set_output` is the guest's setOutput on its state; 0 is AUTODETECT, and the result 0 is FMOD_OK.
unfoldable pub nfsmw_fmod_select_output :
    {S : Type 0} → (set_output : ℕ → S → S × ℕ) → (output : ℕ) → S → S × ℕ
nfsmw_fmod_select_output set_output output s =
    let (s', result) = set_output output s in
    if not (result == 0) && not (output == 0) then set_output 0 s' else (s', result)

-- nfsmw_fmod_select_output returns FMOD_OK exactly if the guest accepts the output that was asked for
-- or, in the state that the refusal leaves, AUTODETECT.
pub nfsmw_fmod_select_output-ok_iff :
    {S : Type 0} (set_output : ℕ → S → S × ℕ) (output : ℕ) (s : S)
    → ((nfsmw_fmod_select_output set_output output s).1 ≡ 0) ↔ (
        ((set_output output s).1 ≡ 0)
        ⊎ ((output ≢ 0) × ((set_output 0 (set_output output s).0).1 ≡ 0)))
unfolding nfsmw_fmod_select_output
nfsmw_fmod_select_output-ok_iff set_output output s = ground arith
