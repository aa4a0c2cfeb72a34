-- ===== src/Fmod/Tests.antt =====
-- A C library whose only file is a sound of five bytes; a stream is its position.
use nfsmw_arm_linux.Prelude.{
  ℕ, ◌+◌, ◌-◌, ◌≡◌, ◌<◌, refl, true, false, Option, none, some, [], ◌∷◌, arith, if◌then◌else◌, leb,
  length, take, drop, Bytes, codes, strip_prefix, same_bytes, ok, err,
}
use nfsmw_arm_linux.Obb.Index.{skip_slashes}
use nfsmw_arm_linux.Fmod.{
  fmod_ok, file_eof, not_found, has_dots, relative, nfsmw_fmod_audio_path, Stdio,
  nfsmw_fmod_file_open, nfsmw_fmod_file_read, nfsmw_fmod_file_seek,
}
use nfsmw_arm_linux.Fmod.Path.{Below, nfsmw_fmod_audio_path-Below}
use nfsmw_arm_linux.Fmod.Slices.{IsRegular, open-seek-read}

abbrev sound : Bytes
sound = 1 ∷ 2 ∷ 3 ∷ 4 ∷ 5 ∷ []

abbrev stdio : Stdio ℕ
stdio = record {
  fopen = λ path. if same_bytes path (codes "/r/published/sounds/a") then ok 0 else err true;
  measure = λ s. some (5, 0);
  fclose = λ s. true;
  fread = λ s n. (take n (drop s sound), s + length (take n (drop s sound)));
  ferror = λ s. false;
  fseek = λ s n. some n;
}

abbrev content : ℕ → Bytes
content s = sound

abbrev position : ℕ → ℕ
position s = s

stdio-IsRegular : IsRegular stdio content position
stdio-IsRegular = record {
  measured = λ s. (0, (refl, (refl, refl)));
  sought = λ s n. (n, (refl, (refl, refl)));
  delivered = λ s n. refl;
  advanced = λ s n. (refl, refl);
  no_error = λ s n. refl;
}

abbrev root : Option Bytes
root = some (codes "/r")

-- A name with two dots in a row is not found.
dots :
    nfsmw_fmod_file_open stdio root (some (codes "sounds/../a")) 0 true true
    ≡ (not_found, some (0, none))
unfolding nfsmw_fmod_file_open nfsmw_fmod_audio_path has_dots
dots = refl

nfsmw_fmod_audio_path-Below_example :
    Below (codes "/r") (codes "/r/published/sounds/a")
    × (length (codes "/r/published/sounds/a") < 4096)
unfolding nfsmw_fmod_audio_path has_dots skip_slashes relative strip_prefix
nfsmw_fmod_audio_path-Below_example =
    nfsmw_fmod_audio_path-Below (codes "/r") (codes "//published/sounds/a") 4096
      {path = codes "/r/published/sounds/a"} refl

open-seek-read_example :
    (opened : ℕ) × ((sought : ℕ) × ((nfsmw_fmod_file_open stdio root
            (some (codes "sounds/a"))
            0
            true
            true
          ≡ (fmod_ok, some (length (content 0), some opened)))
        × ((nfsmw_fmod_file_seek stdio (some opened) 3 ≡ (fmod_ok, some sought))
            × (((nfsmw_fmod_file_read stdio (some sought) true 4 true).0
                  ≡ (if leb 4 (length (content 0) - 3) then fmod_ok else file_eof))
                × ((nfsmw_fmod_file_read stdio (some sought) true 4 true).1.0
                    ≡ some (take 4 (drop 3 (content 0))))))))
unfolding nfsmw_fmod_audio_path has_dots skip_slashes relative strip_prefix same_bytes
open-seek-read_example =
    open-seek-read stdio content position stdio-IsRegular root (codes "sounds/a")
      (codes "/r/published/sounds/a") 0 3 4 refl refl (omega arith)
