-- ===== src/Updater/Executor.antt =====
-- lib/updater/executor.go and trustedkeys.go: an update is downloaded, verified and swapped in.
pub mod Swap
pub mod Verified
pub mod Restored
use etherpad_go.Prelude.{
  ℕ, zero, suc, ◌+◌, ◌*◌, ◌-◌, ◌/◌, ◌%◌, ◌≤◌, ◌<◌, min, Bool, true, false, not, ◌&&◌, ◌||◌, Option,
  none, some, List, [], ◌∷◌, ◌++◌, map, Text, text_eq, codes, if◌then◌else◌, ltb, leb, ◌==◌, length,
  is_some, ◌≡◌, ◌≢◌, ◌↔◌, ◌⊎◌, inl, inr, refl, sym, ap, ◌∙◌, subst, arith, tests, Bool-cases,
  text_eq_refl, text_eq→eq, Option-cases, ltb→lt, lt→ltb, leb→le, le→leb, ==_iff,
}
use etherpad_go.Attribs.{trim_space}
use etherpad_go.Strings.{starts_with, contains}
use etherpad_go.Updater.Release.{
  is_tag_char, all_tag_chars, is_valid_tag, GhAsset, GhRelease, trim_v, to_release_info,
  CheckResult, check_updated, check_prerelease, check_not_modified, check_rate_limited, check_error,
  Response, checked_release, check_latest,
}
use etherpad_go.Updater.State.{
  exit_code_restart, max_boots, Config, Worker, no_apply, in_drain, in_executor, Updater, status_of,
  save_locked, put_execution, set_execution, put_result, put_boot_count, arm_apply_timer,
  cancel_apply_timer, run_preflight, ExecResult, exec_ok, exec_fail, is_pending, load_state,
}
use etherpad_go.Strings.{ends_with, lower_byte, to_lower, split_at_byte}
use etherpad_go.Updater.Assets.{
  os_aliases, arch_aliases, contains_any, is_checksums_asset, is_signature_asset,
  is_ed25519_signature_asset, is_meta_asset, is_binary_for, find_meta, match_asset, blank_bytes,
  nonempty_parts, fields, last_part, base_name, trim_star, checksum_of, parse_line, checksum_for,
  parse_checksums,
}

-- The files: what stands at a path, if anything does.
abbrev pub Files : Type 0
Files = Text → Option Text

abbrev pub put : Text → Option Text → Files → Files
put path content files q = if text_eq path q then content else files q

-- `os.Remove`, with its error ignored.
abbrev pub remove : Text → Files → Files
remove path files = put path none files

-- `os.Rename`: `works` is false where the system refuses.
unfoldable pub rename : Bool → Text → Text → Files → Option Files
rename false source dest files = none
rename true source dest files = elim (files source) [
  | none ↦ none
  | some content ↦ some (put dest (some content) (remove source files))
]

abbrev pub renamed_or : Option Files → Files → Files
renamed_or none files = files
renamed_or (some files') files = files'

-- Which of the renames the system does.
pub record Renames : Type 0 where
  pub aside : Bool
  pub into_place : Bool
  pub undo : Bool

-- The second rename's outcome, with the undo of the first if it was refused.
abbrev pub end_swap : Renames → Text → Text → Option Files → Files → Bool × Files
end_swap w exe back none moved = (false, renamed_or (rename w.undo back exe moved) moved)
end_swap w exe back (some placed) moved = (true, placed)

-- What behind the first rename is left to do, and the files if it was refused.
abbrev pub swap_in : Renames → Text → Text → Text → Option Files → Files → Bool × Files
swap_in w exe back new none files = (false, files)
swap_in w exe back new (some moved) files =
    end_swap w exe back (rename w.into_place new exe moved) moved

abbrev pub backup_of : Text → Text
backup_of exe = exe ++ codes ".bak"

unfoldable pub atomic_replace : Renames → Text → Text → Files → Bool × Files
atomic_replace w exe new files =
    let cleared = remove (backup_of exe) files in
    swap_in w exe (backup_of exe) new (rename w.aside exe (backup_of exe) cleared) cleared

abbrev pub rollback_tmp : Text → Text
rollback_tmp exe = exe ++ codes ".rollback-tmp"

abbrev pub backup_or : Text → Text → Text
backup_or exe back = if text_eq back [] then backup_of exe else back

abbrev pub drop_failed : Text → Bool × Files → Bool × Files
drop_failed tmp (true, files) = (true, remove tmp files)
drop_failed tmp (false, files) = (false, files)

abbrev pub restore_from : Renames → Text → Text → Files → Bool × Files
restore_from w exe back files =
    let cleared = remove (rollback_tmp exe) files in
    drop_failed (rollback_tmp exe) (
      swap_in w exe (rollback_tmp exe) back (rename w.aside exe (rollback_tmp exe) cleared) cleared)

unfoldable pub restore_backup : Renames → Text → Text → Files → Bool × Files
restore_backup w exe back files =
    if is_some (files (backup_or exe back))
    then restore_from w exe (backup_or exe back) files
    else (false, files)

abbrev pub replaced : Text → Bool × Files → ExecResult × Files
replaced exe (true, files) = (exec_ok (backup_of exe), files)
replaced exe (false, files) = (exec_fail (codes "replace-failed"), files)

-- `.ep-update-new` is removed in the end, whatever is left of it.
abbrev pub without_tmp : Text → ExecResult × Files → ExecResult × Files
without_tmp tmp (result, files) = (result, remove tmp files)

abbrev pub after_check : Renames → Text → Text → Text → Option Text → Files → ExecResult × Files
after_check w exe tmp content (some reason) files = (exec_fail reason, remove tmp files)
after_check w exe tmp content none files =
    without_tmp tmp (replaced exe (atomic_replace w exe tmp (put tmp (some content) files)))

abbrev pub first_reason : Option Text → Option Text → Option Text
first_reason none next = next
first_reason (some reason) next = some reason

pub record SignatureVerifier : Type 0 where
  pub require : Bool
  pub public_key : Text

-- The answers of GitHub (`download_bytes` reads a mebibyte at most), and the packages base64, ed25519 and sha256 (with hex).
pub record Services : Type 0 where
  pub release_assets : Text → Option (List GhAsset)
  pub download : Text → Option Text
  pub download_bytes : Text → Option Text
  pub decode_base64 : Text → Option Text
  pub ed25519_verify : Text → Text → Text → Bool
  pub sha256_hex : Text → Text

module _ (net : Services) where
  abbrev pub key_verifies : Option Text → Text → Text → Bool
  key_verifies none message signature = false
  key_verifies (some key) message signature =
      length key == 32 && net.ed25519_verify key message signature

  -- `Verify` returns no error.
  unfoldable pub verify : SignatureVerifier → Text → Text → Bool
  verify s message signature =
      if not s.require
      then true
      else if text_eq s.public_key []
      then false
      else key_verifies (net.decode_base64 s.public_key) message signature

  abbrev pub or_raw : Option Text → Text → Text
  or_raw none b = b
  or_raw (some decoded) b = decoded

  unfoldable pub decode_maybe_base64 : Text → Text
  decode_maybe_base64 b = or_raw (net.decode_base64 (trim_space b)) b

  unfoldable pub fetch_release_by_tag : Text → Option (List GhAsset)
  fetch_release_by_tag tag = if is_valid_tag tag then net.release_assets tag else none

  -- `verifyFileChecksum` returns no error, for the file's content.
  unfoldable pub checksum_fits : Text → Text → Bool
  checksum_fits content want = text_eq (to_lower (net.sha256_hex content)) (to_lower want)

  -- The signature, if one is required, as a reason to stop.
  abbrev pub signature_of : Option GhAsset → SignatureVerifier → Text → Option Text
  signature_of none s sums = some (codes "no-signature-asset")
  signature_of (some a) s sums = elim (net.download_bytes a.browser_download_url) [
    | none ↦ some (codes "signature-download-failed")
    | some sig ↦
        if verify s sums (decode_maybe_base64 sig)
        then none
        else some (codes "signature-verification-failed")
  ]

  abbrev pub check_signature : SignatureVerifier → List GhAsset → Text → Option Text
  check_signature s assets sums =
      if s.require then signature_of (find_meta is_ed25519_signature_asset assets) s sums else none

  abbrev pub check_sum : Option Text → Text → Option Text
  check_sum none content = some (codes "checksum-missing-for-asset")
  check_sum (some want) content =
      if checksum_fits content want then none else some (codes "checksum-mismatch")

  -- A reason to stop, from the checksums file on.
  abbrev pub check_content :
      SignatureVerifier → List GhAsset → Text → Text → Option Text → Option Text
  check_content s assets name content none = some (codes "checksums-download-failed")
  check_content s assets name content (some sums) =
      first_reason (check_signature s assets sums) (check_sum (parse_checksums sums name) content)

  abbrev pub after_download :
      SignatureVerifier
      → Renames
      → Text
      → Text
      → List GhAsset
      → GhAsset
      → GhAsset
      → Option Text
      → Files
      → ExecResult × Files
  after_download s w exe tmp assets a sum none files =
      (exec_fail (codes "download-failed"), remove tmp files)
  after_download s w exe tmp assets a sum (some content) files =
      after_check w exe tmp content
        (check_content s assets a.name content (net.download_bytes sum.browser_download_url)) files

  -- `Apply` once the files of the release are known. `tmp` is `.ep-update-new` beside the executable.
  abbrev pub apply_assets :
      SignatureVerifier
      → Renames
      → Text
      → Text
      → List GhAsset
      → Option GhAsset
      → Option GhAsset
      → Files
      → ExecResult × Files
  apply_assets s w exe tmp assets none sum files = (exec_fail (codes "no-matching-asset"), files)
  apply_assets s w exe tmp assets (some a) none files =
      (exec_fail (codes "no-checksums-asset"), files)
  apply_assets s w exe tmp assets (some a) (some sum) files =
      after_download s w exe tmp assets a sum (net.download a.browser_download_url) files

  abbrev pub apply_release :
      SignatureVerifier
      → Renames
      → Text
      → Text
      → Text
      → Text
      → Option (List GhAsset)
      → Files
      → ExecResult × Files
  apply_release s w goos goarch exe tmp none files =
      (exec_fail (codes "fetch-release-failed"), files)
  apply_release s w goos goarch exe tmp (some assets) files =
      apply_assets s w exe tmp assets (match_asset assets goos goarch)
        (find_meta is_checksums_asset assets) files

  unfoldable pub apply :
      SignatureVerifier → Renames → Text → Text → Text → Text → Text → Files → ExecResult × Files
  apply s w goos goarch exe tmp tag files =
      apply_release s w goos goarch exe tmp (fetch_release_by_tag tag) files
