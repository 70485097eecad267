-- ===== src/Examples/Binaries.antt =====
-- The executor: version 22 is downloaded, verified and swapped in, refused, and rolled back.
use etherpad_go.Prelude.{
  Bool, true, false, none, some, List, [], ◌∷◌, text_eq, codes, if◌then◌else◌, ◌≡◌, refl, ap,
}
use etherpad_go.Strings
use etherpad_go.Attribs
use etherpad_go.Updater.Assets.{
  os_aliases, arch_aliases, contains_any, is_checksums_asset, is_signature_asset,
  is_ed25519_signature_asset, is_meta_asset, find_meta, match_asset, blank_bytes, nonempty_parts,
  fields, last_part, base_name, parse_line, checksum_for, parse_checksums,
}
use etherpad_go.Updater.Release.{is_tag_char, all_tag_chars, is_valid_tag, GhAsset}
use etherpad_go.Updater.State.{ExecResult, exec_ok, exec_fail}
use etherpad_go.Updater.Executor.{
  Files, rename, Renames, atomic_replace, restore_backup, SignatureVerifier, Services, verify,
  decode_maybe_base64, fetch_release_by_tag, checksum_fits, apply,
}
use etherpad_go.Updater.Executor.Verified.{TmpPath, Installed, apply-Verified}
use etherpad_go.Updater.Executor.Restored.{apply-kept, rollback-apply}

-- A release with one binary and its checksum; the digest of every file is "0a".
abbrev release_files : List GhAsset
release_files =
    record { name = codes "app_linux_amd64"; browser_download_url = codes "u1" }
    ∷ record { name = codes "checksums.txt"; browser_download_url = codes "u2" }
    ∷ []

abbrev github : Services
github = record {
  release_assets = λ tag. some release_files;
  download = λ url. some (codes "new");
  download_bytes = λ url. some (codes "0A  app_linux_amd64");
  decode_base64 = λ s. none;
  ed25519_verify = λ key message signature. false;
  sha256_hex = λ s. codes "0a";
}

abbrev no_signature : SignatureVerifier
no_signature = record { require = false; public_key = [] }

abbrev all_work : Renames
all_work = record { aside = true; into_place = true; undo = true }

abbrev not_into_place : Renames
not_into_place = record { aside = true; into_place = false; undo = true }

-- The executable is all that is there.
abbrev only_app : Files
only_app q = if text_eq q (codes "app") then some (codes "old") else none

abbrev update_22 : Renames → ExecResult × Files
update_22 w =
    apply github no_signature w (codes "linux") (codes "amd64") (codes "app") (codes "tmp")
      (codes "v22") only_app

app-TmpPath : TmpPath (codes "app") (codes "tmp")
unfolding text_eq
app-TmpPath = record {
  not_exe = λ e. let wrong : true ≡ false = ap (λ s. text_eq (codes "app") s) e in cc;
  not_backup = λ e. let wrong : true ≡ false = ap (λ s. text_eq (codes "app.bak") s) e in cc;
}

updated : update_22 all_work ≡ (exec_ok (codes "app.bak"), (update_22 all_work).1)
unfolding apply fetch_release_by_tag is_valid_tag Strings.starts_with Strings.contains all_tag_chars
    is_tag_char match_asset is_meta_asset is_checksums_asset Strings.to_lower Strings.lower_byte
    Strings.ends_with text_eq is_signature_asset contains_any os_aliases Attribs.is_space
    Attribs.trim_left Attribs.trim_right Strings.split_at_byte arch_aliases base_name blank_bytes
    checksum_for fields find_meta is_ed25519_signature_asset last_part nonempty_parts
    parse_checksums parse_line atomic_replace checksum_fits decode_maybe_base64 rename verify
updated = refl

refused :
    update_22 not_into_place ≡ (exec_fail (codes "replace-failed"), (update_22 not_into_place).1)
unfolding apply fetch_release_by_tag is_valid_tag Strings.starts_with Strings.contains all_tag_chars
    is_tag_char match_asset is_meta_asset is_checksums_asset Strings.to_lower Strings.lower_byte
    Strings.ends_with text_eq is_signature_asset contains_any os_aliases Attribs.is_space
    Attribs.trim_left Attribs.trim_right Strings.split_at_byte arch_aliases base_name blank_bytes
    checksum_for fields find_meta is_ed25519_signature_asset last_part nonempty_parts
    parse_checksums parse_line atomic_replace checksum_fits decode_maybe_base64 rename verify
refused = refl

apply-Verified_example :
    Installed github no_signature
      (codes "linux")
      (codes "amd64")
      (codes "app")
      (codes "v22")
      (codes "app.bak")
      only_app
      (update_22 all_work).1
apply-Verified_example =
    apply-Verified github no_signature all_work (codes "linux") (codes "amd64") (codes "app")
      (codes "tmp") (codes "v22") (codes "app.bak") only_app (update_22 all_work).1 app-TmpPath
      updated

apply-kept_example : (update_22 not_into_place).1 (codes "app") ≡ only_app (codes "app")
apply-kept_example =
    apply-kept github no_signature not_into_place (codes "linux") (codes "amd64") (codes "app")
      (codes "tmp") (codes "v22") (codes "replace-failed") only_app (update_22 not_into_place).1
      app-TmpPath refl refused

abbrev rolled_back_22 : Bool × Files
rolled_back_22 = restore_backup all_work (codes "app") (codes "app.bak") (update_22 all_work).1

restored : rolled_back_22 ≡ (true, rolled_back_22.1)
unfolding apply fetch_release_by_tag is_valid_tag Strings.starts_with Strings.contains all_tag_chars
    is_tag_char match_asset is_meta_asset is_checksums_asset Strings.to_lower Strings.lower_byte
    Strings.ends_with text_eq is_signature_asset contains_any os_aliases Attribs.is_space
    Attribs.trim_left Attribs.trim_right Strings.split_at_byte arch_aliases base_name blank_bytes
    checksum_for fields find_meta is_ed25519_signature_asset last_part nonempty_parts
    parse_checksums parse_line atomic_replace checksum_fits decode_maybe_base64 rename verify
    restore_backup
restored = refl

rollback-apply_example : rolled_back_22.1 (codes "app") ≡ only_app (codes "app")
rollback-apply_example =
    rollback-apply github no_signature all_work all_work (codes "linux") (codes "amd64")
      (codes "app") (codes "tmp") (codes "v22") (codes "app.bak") only_app (update_22 all_work).1
      rolled_back_22.1 app-TmpPath updated restored
