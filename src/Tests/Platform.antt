-- ===== src/Tests/Platform.antt =====
-- src/util/platform_check.h with the macros of a compiler for Solaris.
use Prim.Native.String.{String}
use text.Mathlib.Text.{◌==◌ as str_eq}
use tag_sim.Common.{◌≡◌, refl, Bool, ◌||◌, false}
use tag_sim.Platform.{
  Macros, undefined, platform_name, architecture, UnixName, unix_names, unix_like, unix_name,
}

-- GCC defines `__unix__` there too.
abbrev solaris_defined : String → Bool
solaris_defined name =
    str_eq name "__unix__"
    || str_eq name "__sun"
    || str_eq name "__SVR4"
    || str_eq name "__x86_64__"

abbrev solaris : Macros
solaris = record { defined = solaris_defined; in_param = λ _. false; in_conditionals = λ _. 0 }

solaris_name : platform_name solaris ≡ undefined
unfolding platform_name unix_like unix_name
solaris_name = refl

sixty_four_bits : architecture solaris ≡ "Running on a 64-bit architecture"
unfolding architecture
sixty_four_bits = refl

unix_names_example : UnixName solaris (platform_name solaris)
unix_names_example = unix_names solaris refl
