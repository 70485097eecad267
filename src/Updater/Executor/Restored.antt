-- ===== src/Updater/Executor/Restored.antt =====
-- `Apply` and `Rollback` of lib/updater/executor.go: the old binary is kept, or comes back.
use etherpad_go.Prelude.{
  ℕ, Bool, true, false, Option, none, some, List, [], ◌∷◌, ◌++◌, Text, text_eq, if◌then◌else◌,
  is_some, ◌≡◌, ◌≢◌, refl, sym, ap, ◌∙◌,
}
use etherpad_go.Updater.Release.{GhAsset}
use etherpad_go.Updater.State.{ExecResult, exec_ok, exec_fail}
use etherpad_go.Updater.Executor.{
  Files, put, remove, Renames, backup_of, atomic_replace, rollback_tmp, drop_failed, restore_from,
  restore_backup, replaced, without_tmp, after_check, SignatureVerifier, Services,
  fetch_release_by_tag, after_download, apply_assets, apply_release, apply,
}
use etherpad_go.Updater.Executor.Swap.{longer, differ, swap_in-Swapped}
use etherpad_go.Updater.Executor.Verified.{TmpPath, put-differ, atomic_replace-kept, apply-Verified}

after_check-kept :
    (w : Renames) (exe tmp content reason : Text) (o : Option Text) (files files' : Files)
    → TmpPath exe tmp
    → w.undo ≡ true
    → after_check w exe tmp content o files ≡ (exec_fail reason, files')
    → files' exe ≡ files exe
after_check-kept w exe tmp content reason (some r) files files' t undo e =
    let files_are : files' ≡ remove tmp files = cc in
    ap (λ f. f exe) files_are ∙ put-differ tmp exe none files (λ x. t.not_exe (sym x))
after_check-kept w exe tmp content reason none files files' t undo e =
    at (atomic_replace w exe tmp (put tmp (some content) files)) refl e
  where
    at :
        (r : Bool × Files)
        → atomic_replace w exe tmp (put tmp (some content) files) ≡ r
        → without_tmp tmp (replaced exe r) ≡ (exec_fail reason, files')
        → files' exe ≡ files exe
    at (true, left) r e = cc
    at (false, left) r e =
        let files_are : files' ≡ remove tmp left = cc in
        ap (λ f. f exe) files_are
        ∙ put-differ tmp exe none left (λ x. t.not_exe (sym x))
        ∙ atomic_replace-kept w exe tmp content files left t undo r

-- An update that fails leaves the executable as it was, if a rename that has to be undone can be.
pub apply-kept :
    (net : Services) (s : SignatureVerifier) (w : Renames) (goos goarch exe tmp tag reason : Text)
    (files files' : Files)
    → TmpPath exe tmp
    → w.undo ≡ true
    → apply net s w goos goarch exe tmp tag files ≡ (exec_fail reason, files')
    → files' exe ≡ files exe
unfolding apply
apply-kept net s w goos goarch exe tmp tag reason files files' t undo e =
    listed (fetch_release_by_tag net tag) e
  where
    same :
        {r : ExecResult} {f : Files}
        → ◌≡◌ {A = ExecResult × Files} (r, f) (exec_fail reason, files')
        → files' ≡ f
    same e = cc

    downloaded :
        (assets : List GhAsset) (a sum : GhAsset) (o : Option Text)
        → after_download net s w exe tmp assets a sum o files ≡ (exec_fail reason, files')
        → files' exe ≡ files exe
    downloaded assets a sum none e =
        ap (λ f. f exe) (same e) ∙ put-differ tmp exe none files (λ x. t.not_exe (sym x))
    downloaded assets a sum (some content) e =
        after_check-kept w exe tmp content reason _ files files' t undo e

    chosen :
        (assets : List GhAsset) (a sum : Option GhAsset)
        → apply_assets net s w exe tmp assets a sum files ≡ (exec_fail reason, files')
        → files' exe ≡ files exe
    chosen assets none sum e = ap (λ f. f exe) (same e)
    chosen assets (some a) none e = ap (λ f. f exe) (same e)
    chosen assets (some a) (some sum) e =
        downloaded assets a sum (net.download a.browser_download_url) e

    listed :
        (o : Option (List GhAsset))
        → apply_release net s w goos goarch exe tmp o files ≡ (exec_fail reason, files')
        → files' exe ≡ files exe
    listed none e = ap (λ f. f exe) (same e)
    listed (some assets) e = chosen assets _ _ e

drop_failed-true :
    (tmp : Text) (r : Bool × Files) (files' : Files)
    → drop_failed tmp r ≡ (true, files')
    → (left : Files) × (r ≡ (true, left)) × (files' ≡ remove tmp left)
drop_failed-true tmp (true, left) files' e = (left, refl, cc)
drop_failed-true tmp (false, left) files' e = cc

restore_from-exe :
    (w : Renames) (exe back : Text) (files files' : Files)
    → exe ≢ back
    → rollback_tmp exe ≢ back
    → restore_from w exe back files ≡ (true, files')
    → files' exe ≡ files back
restore_from-exe w exe back files files' not_exe not_tmp e =
    let (left, swapped, files_are) = drop_failed-true (rollback_tmp exe) _ files' e in
    let r =
      swap_in-Swapped w exe (rollback_tmp exe) back _ left
        (record { exe_back = (λ x. longer _ _ _ (sym x)); exe_new = not_exe; back_new = not_tmp })
        swapped in
    ap (λ f. f exe) files_are
    ∙ put-differ (rollback_tmp exe) exe none left (longer exe _ _)
    ∙ r.now_new
    ∙ sym r.was_new
    ∙ put-differ (rollback_tmp exe) back none files not_tmp

restore_backup-exe :
    (w : Renames) (exe back : Text) (files files' : Files)
    → exe ≢ back
    → rollback_tmp exe ≢ back
    → back ≢ []
    → restore_backup w exe back files ≡ (true, files')
    → files' exe ≡ files back
unfolding restore_backup
restore_backup-exe w exe back files files' not_exe not_tmp given e =
    at (text_eq back []) (differ back [] given) e
  where
    found :
        (b : Bool)
        → (if b then restore_from w exe back files else (false, files)) ≡ (true, files')
        → files' exe ≡ files back
    found true e = restore_from-exe w exe back files files' not_exe not_tmp e
    found false e = cc

    at :
        (b : Bool)
        → b ≡ false
        → (if is_some (files (if b then backup_of exe else back))
            then restore_from w exe (if b then backup_of exe else back) files
            else (false, files))
          ≡ (true, files')
        → files' exe ≡ files back
    at true h e = cc
    at false h e = found (is_some (files back)) e

suffixes-differ : (s t u : Text) → t ≢ u → s ++ t ≢ s ++ u
suffixes-differ [] t u other e = other e
suffixes-differ (x ∷ s) t u other e = suffixes-differ s t u other cc

nonempty : (s : Text) (c : ℕ) (t : Text) → s ++ c ∷ t ≢ []
nonempty [] c t e = cc
nonempty (x ∷ s) c t e = cc

-- A rollback that works, after an update that was applied, puts the executable of before the update
-- back in its place.
pub rollback-apply :
    (net : Services) (s : SignatureVerifier) (w u : Renames) (goos goarch exe tmp tag back : Text)
    (files files' files'' : Files)
    → TmpPath exe tmp
    → apply net s w goos goarch exe tmp tag files ≡ (exec_ok back, files')
    → restore_backup u exe back files' ≡ (true, files'')
    → files'' exe ≡ files exe
rollback-apply net s w u goos goarch exe tmp tag back files files' files'' t e r =
    let (content, verified_by, back_is, installed, kept) =
      apply-Verified net s w goos goarch exe tmp tag back files files' t e in
    restore_backup-exe u exe back files' files'' (λ x. longer exe _ _ (sym back_is ∙ sym x))
      (λ x. suffixes-differ exe _ _ (λ y. cc) (x ∙ back_is))
      (λ x. nonempty exe _ _ (sym back_is ∙ x)) r
    ∙ kept
