-- ===== src/Updater/Assets.antt =====
-- lib/updater/executor.go: which files of a release are used, and what the checksums file says. The
-- case of letters is folded for ASCII only.
use etherpad_go.Prelude.{
  ℕ, Bool, false, not, ◌&&◌, ◌||◌, Option, none, some, List, [], ◌∷◌, Text, text_eq, codes,
  if◌then◌else◌, leb, ◌==◌,
}
use etherpad_go.Attribs.{trim_space}
use etherpad_go.Strings.{contains, ends_with, to_lower, split_at_byte}
use etherpad_go.Strings.{contains}
use etherpad_go.Updater.Release.{GhAsset}

unfoldable pub os_aliases : Text → List Text
os_aliases goos =
    if text_eq goos (codes "darwin")
    then codes "darwin" ∷ codes "macos" ∷ codes "osx" ∷ []
    else goos ∷ []

unfoldable pub arch_aliases : Text → List Text
arch_aliases goarch =
    if text_eq goarch (codes "amd64")
    then codes "amd64" ∷ codes "x86_64" ∷ codes "x64" ∷ []
    else if text_eq goarch (codes "arm64")
    then codes "arm64" ∷ codes "aarch64" ∷ []
    else if text_eq goarch (codes "386")
    then codes "386" ∷ codes "i386" ∷ codes "x86" ∷ []
    else goarch ∷ []

unfoldable pub contains_any : Text → List Text → Bool
contains_any s [] = false
contains_any s (sub ∷ subs) = contains sub s || contains_any s subs

unfoldable pub is_checksums_asset : Text → Bool
is_checksums_asset name = contains (codes "checksums") name || ends_with (codes ".sha256") name

unfoldable pub is_signature_asset : Text → Bool
is_signature_asset name =
    ends_with (codes ".sig") name
    || ends_with (codes ".minisig") name
    || ends_with (codes ".asc") name

unfoldable pub is_ed25519_signature_asset : Text → Bool
is_ed25519_signature_asset name = ends_with (codes ".sig") name

unfoldable pub is_meta_asset : Text → Bool
is_meta_asset name = is_checksums_asset name || is_signature_asset name

-- The test of one round of `matchAsset`.
abbrev pub is_binary_for : Text → Text → Text → Bool
is_binary_for goos goarch name =
    not (is_meta_asset name)
    && (contains_any name (os_aliases goos) && contains_any name (arch_aliases goarch))

unfoldable pub find_meta : (Text → Bool) → List GhAsset → Option GhAsset
find_meta pred [] = none
find_meta pred (a ∷ assets) = if pred (to_lower a.name) then some a else find_meta pred assets

unfoldable pub match_asset : List GhAsset → Text → Text → Option GhAsset
match_asset [] goos goarch = none
match_asset (a ∷ assets) goos goarch =
    if is_binary_for goos goarch (to_lower a.name) then some a else match_asset assets goos goarch

-- A space of ASCII.
abbrev pub is_blank_byte : ℕ → Bool
is_blank_byte c = c == b' ' || leb 9 c && leb c 13

unfoldable pub blank_bytes : Text → Text
blank_bytes [] = []
blank_bytes (c ∷ s) = (if is_blank_byte c then b' ' else c) ∷ blank_bytes s

unfoldable pub nonempty_parts : List Text → List Text
nonempty_parts [] = []
nonempty_parts ([] ∷ parts) = nonempty_parts parts
nonempty_parts ((c ∷ part) ∷ parts) = (c ∷ part) ∷ nonempty_parts parts

-- `strings.Fields`
unfoldable pub fields : Text → List Text
fields s = nonempty_parts (split_at_byte b' ' (blank_bytes s))

unfoldable pub last_part : Text → List Text → Text
last_part part [] = part
last_part part (next ∷ parts) = last_part next parts

-- `filepath.Base` with the separator '/'.
unfoldable pub base_name : Text → Text
base_name path =
    if text_eq path []
    then codes "."
    else last_part (codes "/") (nonempty_parts (split_at_byte b'/' path))

-- `strings.TrimPrefix(s, "*")`
abbrev pub trim_star : Text → Text
trim_star [] = []
trim_star (c ∷ s) = if c == b'*' then s else c ∷ s

-- What a line says: a file's name and its checksum.
abbrev pub checksum_of : List Text → Option (Text × Text)
checksum_of [] = none
checksum_of (sum ∷ []) = none
checksum_of (sum ∷ name ∷ names) = some (base_name (trim_star (last_part name names)), to_lower sum)

unfoldable pub parse_line : Text → Option (Text × Text)
parse_line line = checksum_of (fields (trim_space line))

-- `out[name]` for the map of `parseChecksums`: a later line for a name replaces an earlier one.
unfoldable pub checksum_for : Text → List Text → Option Text
checksum_for name [] = none
checksum_for name (line ∷ lines) =
    let later = checksum_for name lines in
    elim later [
      | some sum ↦ some sum
      | none ↦ elim (parse_line line) [
        | none ↦ none
        | some (file, sum) ↦ if text_eq file name then some sum else none
      ]
    ]

unfoldable pub parse_checksums : Text → Text → Option Text
parse_checksums content name = checksum_for name (split_at_byte 10 content)
