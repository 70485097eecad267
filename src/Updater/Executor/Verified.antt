-- ===== src/Updater/Executor/Verified.antt =====
-- `Apply` and `Rollback` of lib/updater/executor.go: the binary that is installed is the verified one,
-- and the old one comes back.
use etherpad_go.Prelude.{
  Bool, true, false, Option, none, some, List, Text, if◌then◌else◌, ◌≡◌, ◌≢◌, refl, sym, ap, ◌∙◌,
  arith,
}
use etherpad_go.Updater.Release.{is_valid_tag, GhAsset}
use etherpad_go.Updater.State.{exec_ok}
use etherpad_go.Updater.Assets.{is_checksums_asset, find_meta, match_asset, parse_checksums}
use etherpad_go.Updater.Executor.{
  Files, put, remove, Renames, backup_of, atomic_replace, SignatureVerifier, Services,
  fetch_release_by_tag, checksum_fits, check_signature, check_sum, first_reason, check_content,
  replaced, without_tmp, after_check, after_download, apply_assets, apply_release, apply,
}
use etherpad_go.Updater.Executor.Swap.{
  longer, differ, put-same, put-other, Apart, swap_in-Swapped, swap_in-kept,
}

-- The file beside the executable that an update is downloaded to.
pub record TmpPath (exe tmp : Text) : Type 0 where
  pub not_exe : exe ≢ tmp
  pub not_backup : backup_of exe ≢ tmp

apart : {exe tmp : Text} → TmpPath exe tmp → Apart exe (backup_of exe) tmp
apart t = record {
  exe_back = (λ e. longer _ _ _ (sym e));
  exe_new = t.not_exe;
  back_new = t.not_backup;
}

pub put-differ :
    (path q : Text) (content : Option Text) (files : Files)
    → path ≢ q
    → put path content files q ≡ files q
put-differ path q content files other = put-other path q content files (differ path q other)

-- The executable, once the new file is downloaded and the old backup removed.
cleared-exe :
    (exe tmp content : Text) (files : Files)
    → TmpPath exe tmp
    → remove (backup_of exe) (put tmp (some content) files) exe ≡ files exe
cleared-exe exe tmp content files t =
    put-differ (backup_of exe) exe none (put tmp (some content) files) (longer exe _ _)
    ∙ put-differ tmp exe (some content) files (λ e. t.not_exe (sym e))

pub atomic_replace-Swapped :
    (w : Renames) (exe tmp content : Text) (files files' : Files)
    → TmpPath exe tmp
    → atomic_replace w exe tmp (put tmp (some content) files) ≡ (true, files')
    → (files' exe ≡ some content) × (files' (backup_of exe) ≡ files exe)
unfolding atomic_replace
atomic_replace-Swapped w exe tmp content files files' t e =
    let r = swap_in-Swapped w exe (backup_of exe) tmp _ files' (apart t) e in
    (
      r.now_new
          ∙ sym r.was_new
          ∙ put-differ (backup_of exe) tmp none (put tmp (some content) files) t.not_backup
          ∙ put-same tmp (some content) files,
      r.now_old ∙ sym r.was_old ∙ cleared-exe exe tmp content files t,
    )

pub atomic_replace-kept :
    (w : Renames) (exe tmp content : Text) (files files' : Files)
    → TmpPath exe tmp
    → w.undo ≡ true
    → atomic_replace w exe tmp (put tmp (some content) files) ≡ (false, files')
    → files' exe ≡ files exe
unfolding atomic_replace
atomic_replace-kept w exe tmp content files files' t undo e =
    swap_in-kept w exe (backup_of exe) tmp _ files' undo e ∙ cleared-exe exe tmp content files t

-- What stands behind an update that was applied.
pub record Verified (net : Services) (s : SignatureVerifier) (goos goarch tag : Text)
    (content : Text) : Type 0 where
  pub assets : List GhAsset
  pub asset : GhAsset
  pub sum_file : GhAsset
  pub sums : Text
  pub want : Text
  pub valid_tag : is_valid_tag tag ≡ true
  pub listed : net.release_assets tag ≡ some assets
  pub chosen : match_asset assets goos goarch ≡ some asset
  pub downloaded : net.download asset.browser_download_url ≡ some content
  pub has_sums : find_meta is_checksums_asset assets ≡ some sum_file
  pub sums_downloaded : net.download_bytes sum_file.browser_download_url ≡ some sums
  pub signature_checked : check_signature net s assets sums ≡ none
  pub has_sum : parse_checksums sums asset.name ≡ some want
  pub sum_fits : checksum_fits net content want ≡ true

-- A verified binary stands in the place of the executable, and the old one behind it.
abbrev pub Installed :
    Services → SignatureVerifier → Text → Text → Text → Text → Text → Files → Files → Type 0
Installed net s goos goarch exe tag back files files' =
    (content : Text) × Verified net s goos goarch tag content
    × (back ≡ backup_of exe)
    × (files' exe ≡ some content)
    × (files' back ≡ files exe)

-- The update that `after_check` installs, if it does.
after_check-installed :
    (w : Renames) (exe tmp content back : Text) (o : Option Text) (files files' : Files)
    → TmpPath exe tmp
    → after_check w exe tmp content o files ≡ (exec_ok back, files')
    → (o ≡ none) × (back ≡ backup_of exe) × (files' exe ≡ some content) × (files' back ≡ files exe)
after_check-installed w exe tmp content back (some reason) files files' t e = cc
after_check-installed w exe tmp content back none files files' t e =
    at (atomic_replace w exe tmp (put tmp (some content) files)) refl e
  where
    at :
        (r : Bool × Files)
        → atomic_replace w exe tmp (put tmp (some content) files) ≡ r
        → without_tmp tmp (replaced exe r) ≡ (exec_ok back, files')
        → (◌≡◌ {A = Option Text} none none)
          × (back ≡ backup_of exe)
          × (files' exe ≡ some content)
          × (files' back ≡ files exe)
    at (false, left) r e = cc
    at (true, left) r e =
        let (installed, kept) = atomic_replace-Swapped w exe tmp content files left t r in
        let back_is : back ≡ backup_of exe = cc in
        let files_are : files' ≡ remove tmp left = cc in
        (
          refl,
          back_is,
          ap (λ f. f exe) files_are
              ∙ put-differ tmp exe none left (λ x. t.not_exe (sym x))
              ∙ installed,
          ap (λ f. f back) files_are
              ∙ ap (λ q. remove tmp left q) back_is
              ∙ put-differ tmp (backup_of exe) none left (λ x. t.not_backup (sym x))
              ∙ kept,
        )

check_content-none :
    (net : Services) (s : SignatureVerifier) (assets : List GhAsset) (name content : Text)
    (o : Option Text)
    → check_content net s assets name content o ≡ none
    → (sums : Text) × (want : Text) × (o ≡ some sums)
      × (check_signature net s assets sums ≡ none)
      × (parse_checksums sums name ≡ some want)
      × (checksum_fits net content want ≡ true)
check_content-none net s assets name content none e = cc
check_content-none net s assets name content (some sums) e =
    signed (check_signature net s assets sums) refl (parse_checksums sums name) refl e
  where
    signed :
        (g : Option Text)
        → check_signature net s assets sums ≡ g
        → (p : Option Text) → parse_checksums sums name ≡ p
        → first_reason g (check_sum net p content) ≡ none
        → (sums' : Text) × (want : Text) × (some sums ≡ some sums')
          × (check_signature net s assets sums' ≡ none)
          × (parse_checksums sums' name ≡ some want)
          × (checksum_fits net content want ≡ true)
    signed (some reason) g p q e = cc
    signed none g none q e = cc
    signed none g (some want) q e = (sums, want, refl, g, q, ground arith)

-- An update is applied only with a valid tag, a binary for the platform whose checksum the checksums file
-- gives, and a signature of that file, if one is required. Then the binary stands in the place of the
-- executable, and the old executable at the path that is returned.
pub apply-Verified :
    (net : Services) (s : SignatureVerifier) (w : Renames) (goos goarch exe tmp tag back : Text)
    (files files' : Files)
    → TmpPath exe tmp
    → apply net s w goos goarch exe tmp tag files ≡ (exec_ok back, files')
    → Installed net s goos goarch exe tag back files files'
unfolding apply fetch_release_by_tag
apply-Verified net s w goos goarch exe tmp tag back files files' t e = at (is_valid_tag tag) refl e
  where
    content_of :
        (assets : List GhAsset) (a sum : GhAsset) (o : Option Text)
        → net.download a.browser_download_url ≡ o
        → is_valid_tag tag ≡ true
        → net.release_assets tag ≡ some assets
        → match_asset assets goos goarch ≡ some a
        → find_meta is_checksums_asset assets ≡ some sum
        → after_download net s w exe tmp assets a sum o files ≡ (exec_ok back, files')
        → Installed net s goos goarch exe tag back files files'
    content_of assets a sum none d valid listed chosen has e = cc
    content_of assets a sum (some content) d valid listed chosen has e =
        let (go, back_is, installed, kept) =
          after_check-installed w exe tmp content back _ files files' t e in
        let (sums, want, got, sign, line, fits) =
          check_content-none net s assets a.name content
            (net.download_bytes sum.browser_download_url) go in
        (
          content,
          record {
            assets = assets;
            asset = a;
            sum_file = sum;
            sums = sums;
            want = want;
            valid_tag = valid;
            listed = listed;
            chosen = chosen;
            downloaded = d;
            has_sums = has;
            sums_downloaded = got;
            signature_checked = sign;
            has_sum = line;
            sum_fits = fits;
          },
          back_is,
          installed,
          kept,
        )

    chosen_of :
        (assets : List GhAsset) (a sum : Option GhAsset)
        → match_asset assets goos goarch ≡ a
        → find_meta is_checksums_asset assets ≡ sum
        → is_valid_tag tag ≡ true
        → net.release_assets tag ≡ some assets
        → apply_assets net s w exe tmp assets a sum files ≡ (exec_ok back, files')
        → Installed net s goos goarch exe tag back files files'
    chosen_of assets none sum chosen has valid listed e = cc
    chosen_of assets (some a) none chosen has valid listed e = cc
    chosen_of assets (some a) (some sum) chosen has valid listed e =
        content_of assets a sum (net.download a.browser_download_url) refl valid listed chosen has e

    listed_of :
        (o : Option (List GhAsset))
        → net.release_assets tag ≡ o
        → is_valid_tag tag ≡ true
        → apply_release net s w goos goarch exe tmp o files ≡ (exec_ok back, files')
        → Installed net s goos goarch exe tag back files files'
    listed_of none listed valid e = cc
    listed_of (some assets) listed valid e = chosen_of assets _ _ refl refl valid listed e

    at :
        (b : Bool)
        → is_valid_tag tag ≡ b
        → apply_release net s w goos goarch exe tmp
            (if b then net.release_assets tag else none)
            files
          ≡ (exec_ok back, files')
        → Installed net s goos goarch exe tag back files files'
    at false valid e = cc
    at true valid e = listed_of (net.release_assets tag) refl valid e
