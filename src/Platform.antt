-- ===== src/Platform.antt =====
-- src/util/platform_check.h: which text the preprocessor gives to PLATFORM_NAME, and which call of printf
-- it leaves. An identifier that is not defined counts as 0 in `#if`.
use Prim.Native.String.{String}
use tag_sim.Common.{
  ℕ, ◌≡◌, Bool, true, false, if◌then◌else◌, ◌==◌, ◌||◌, ◌&&◌, not, Bool-cases, inl, inr,
}

-- What the compiler and the headers define.
pub record Macros : Type 0 where
  -- `defined(...)`, before any header is read
  pub defined : String → Bool
  -- `defined(...)`, behind <sys/param.h>
  pub in_param : String → Bool
  -- the value in `#if`, behind <TargetConditionals.h>
  pub in_conditionals : String → ℕ

-- What the file defines PLATFORM_NAME as: a text, `NULL`, or nothing.
pub data PlatformName : Type 0 where
  named : String → PlatformName
  null : PlatformName
  undefined : PlatformName

-- `defined(__unix__) || !defined(__APPLE__) && defined(__MACH__)`
unfoldable pub unix_like : Macros → Bool
unix_like m = m.defined "__unix__" || (not (m.defined "__APPLE__") && m.defined "__MACH__")

unfoldable pub unix_name : Macros → PlatformName
unix_name m = if m.in_param "BSD" then named "bsd" else undefined

unfoldable pub apple_name : Macros → PlatformName
apple_name m =
    if m.in_conditionals "TARGET_IPHONE_SIMULATOR" == 1
    then named "ios"
    else if m.in_conditionals "TARGET_OS_IPHONE" == 1
    then named "ios"
    else if m.in_conditionals "TARGET_OS_MAC" == 1
    then named "osx"
    else undefined

unfoldable pub platform_name : Macros → PlatformName
platform_name m =
    if m.defined "_WIN32"
    then named "windows"
    else if m.defined "_WIN64"
    then named "windows"
    else if m.defined "__CYGWIN__" && not (m.defined "_WIN32")
    then named "windows"
    else if m.defined "__ANDROID__"
    then named "android"
    else if m.defined "__linux__"
    then named "linux"
    else if unix_like m
    then unix_name m
    else if m.defined "__hpux"
    then named "hp-ux"
    else if m.defined "_AIX"
    then named "aix"
    else if m.defined "__APPLE__" && m.defined "__MACH__"
    then apple_name m
    else if m.defined "__sun" && m.defined "__SVR4"
    then named "solaris"
    else null

-- The text of the call that is left, without its end of line.
unfoldable pub architecture : Macros → String
architecture m =
    if m.defined "__x86_64__" || m.defined "_M_X64"
    then "Running on a 64-bit architecture"
    else if m.defined "__i386__" || m.defined "_M_IX86"
    then "Running on a 32-bit architecture"
    else "Unknown architecture"

-- What PLATFORM_NAME can be where `__unix__` is defined, and the macro that each text tells of.
pub data UnixName (m : Macros) : PlatformName → Type 0 where
  win32 : m.defined "_WIN32" ≡ true → UnixName m (named "windows")
  win64 : m.defined "_WIN64" ≡ true → UnixName m (named "windows")
  cygwin : m.defined "__CYGWIN__" ≡ true → UnixName m (named "windows")
  android : m.defined "__ANDROID__" ≡ true → UnixName m (named "android")
  linux : m.defined "__linux__" ≡ true → UnixName m (named "linux")
  bsd : m.in_param "BSD" ≡ true → UnixName m (named "bsd")
  nothing :
      m.defined "_WIN32" ≡ false
      → m.defined "_WIN64" ≡ false
      → m.defined "__CYGWIN__" ≡ false
      → m.defined "__ANDROID__" ≡ false
      → m.defined "__linux__" ≡ false
      → m.in_param "BSD" ≡ false
      → UnixName m undefined

-- Where `__unix__` is defined, PLATFORM_NAME is the text of Windows, Android, Linux or BSD, and then a
-- macro of that platform is defined; where none of these is defined it is left without a definition. It
-- is never NULL or the text of another platform, whatever else is defined.
pub unix_names : (m : Macros) → m.defined "__unix__" ≡ true → UnixName m (platform_name m)
unfolding platform_name unix_like unix_name
unix_names m unix = elim (Bool-cases (m.defined "_WIN32")) [
  | inl h ↦ rw h (win32 h)
  | inr no_32 ↦ rw no_32 (elim (Bool-cases (m.defined "_WIN64")) [
    | inl h ↦ rw h (win64 h)
    | inr no_64 ↦ rw no_64 (elim (Bool-cases (m.defined "__CYGWIN__")) [
      | inl h ↦ rw h (cygwin h)
      | inr no_cygwin ↦ rw no_cygwin (elim (Bool-cases (m.defined "__ANDROID__")) [
        | inl h ↦ rw h (android h)
        | inr no_android ↦ rw no_android (elim (Bool-cases (m.defined "__linux__")) [
          | inl h ↦ rw h (linux h)
          | inr no_linux ↦
              rw (no_linux, unix)
                (elim (Bool-cases (m.in_param "BSD")) [
                  | inl h ↦ rw h (bsd h)
                  | inr no_bsd ↦
                      rw no_bsd (nothing no_32 no_64 no_cygwin no_android no_linux no_bsd)
                ])
        ])
      ])
    ])
  ])
]
