-- ===== src/Tests/Volumes.antt =====
-- A device in memory, formatted, saved to and loaded from.
use mathlib.Core.Path.{subst}
use corefs.Common.{
  ℕ, ◌≡◌, refl, sym, ap, Option, some, List, [], ◌∷◌, ok, replicate, Returns, arith,
}
use corefs.Layout.{plan}
use corefs.Layout.Plan.{IsFitted}
use corefs.Device.{MemoryDevice, memory}
use corefs.Device.Memory.{IsValid, memory-Laws}
use corefs.Volume.State.{save_state}
use corefs.Volume.Format.{FormatOptions, params_of, format_device}
use corefs.Volume.Loaded.{length-with_trailer}
use corefs.Volume.Roundtrip.{IsFormatted, Saved, save_state-Saved}
use corefs.Volume.Formatted.{EmptyVolume, format_device-EmptyVolume}
use corefs.Tests.Layouts.{default_geometry, default-IsOrdered}
use corefs.Tests.Chains.{blank, blank-Usable}

abbrev options : FormatOptions
options = record {
  label = 99 ∷ 111 ∷ [];
  uuid = replicate 16 7;
  inode_count = 4096;
  journal_blocks = 64;
}

-- States that are their own bytes
abbrev bytes_of : List ℕ → Option (List ℕ)
bytes_of s = some s

plan_blank : plan (params_of memory blank options) ≡ ok default_geometry
unfolding plan
plan_blank = refl

default-IsFitted : IsFitted default_geometry
default-IsFitted = omega arith

abbrev Holds : ℕ → MemoryDevice → Type 0
Holds = IsFormatted memory IsValid (λ d. d.bytes) memory-Laws default_geometry

format_device-EmptyVolume_example : Returns (format_device memory options 1000) blank λ report d'.
    (report.geometry ≡ default_geometry)
    × (report.uuid ≡ replicate 16 7)
    × (report.generation ≡ 1)
    × EmptyVolume memory IsValid (λ d. d.bytes) memory-Laws bytes_of bytes_of default_geometry d'
format_device-EmptyVolume_example =
    format_device-EmptyVolume memory IsValid (λ d. d.bytes) memory-Laws bytes_of bytes_of blank
      options 1000 blank-Usable plan_blank (omega arith) (omega arith) (omega arith) refl
      (omega arith) (omega arith)

-- The device after it was formatted
abbrev fresh : MemoryDevice
fresh = (format_device memory options 1000 blank).1

fresh-Holds : Holds 1 fresh
fresh-Holds =
    let (_, d', e, (_, _, _, empty)) =
      format_device-EmptyVolume memory IsValid (λ d. d.bytes) memory-Laws bytes_of bytes_of blank
        options 1000 blank-Usable plan_blank (omega arith) (omega arith) (omega arith) refl
        (omega arith) (omega arith) in
    subst (Holds 1) (sym (ap (λ x. x.1) e)) empty.formatted

abbrev three_bytes : List ℕ
three_bytes = 1 ∷ 2 ∷ 3 ∷ []

save_state-Saved_example :
    Returns (save_state memory bytes_of bytes_of three_bytes 2000) fresh λ report d'.
      Saved memory IsValid
        (λ d. d.bytes)
        memory-Laws
        bytes_of
        bytes_of
        (λ _ _ e. sym e)
        default_geometry
        default-IsOrdered
        default-IsFitted
        1
        three_bytes
        three_bytes
        report
        d'
save_state-Saved_example =
    save_state-Saved memory IsValid (λ d. d.bytes) memory-Laws bytes_of bytes_of (λ _ _ e. sym e)
      default_geometry default-IsOrdered default-IsFitted fresh 1 three_bytes three_bytes 2000
      fresh-Holds refl (omega arith) (omega (arith, length-with_trailer three_bytes))
      (omega (arith, length-with_trailer three_bytes))
