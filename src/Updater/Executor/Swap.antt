-- ===== src/Updater/Executor/Swap.antt =====
-- `atomicReplace`, `restoreBackup` and `Apply` of lib/updater/executor.go: what they do to the files.
use etherpad_go.Prelude.{
  ℕ, Bool, true, false, Option, none, some, [], ◌∷◌, ◌++◌, Text, text_eq, ◌≡◌, ◌≢◌, inl, inr, refl,
  sym, ap, ◌∙◌, Bool-cases, text_eq_refl, text_eq→eq,
}
use etherpad_go.Updater.Executor.{
  end_swap, Files, put, remove, rename, renamed_or, Renames, swap_in,
}

pub longer : (s : Text) (c : ℕ) (t : Text) → s ++ c ∷ t ≢ s
longer [] c t e = cc
longer (x ∷ s) c t e = longer s c t cc

pub differ : (s t : Text) → s ≢ t → text_eq s t ≡ false
differ s t other = elim (Bool-cases (text_eq s t)) [
  | inl same ↦ absurd (other (text_eq→eq s t same))
  | inr no_match ↦ no_match
]

pub put-same :
    (path : Text) (content : Option Text) (files : Files) → put path content files path ≡ content
put-same path content files = rw (text_eq_refl path) refl

pub put-other :
    (path q : Text) (content : Option Text) (files : Files)
    → text_eq path q ≡ false
    → put path content files q ≡ files q
put-other path q content files other = rw (other) refl

-- Where a rename worked: what was at its source.
record Renamed (source dest : Text) (files files' : Files) : Type 0 where
  pub content : Text
  pub was : files source ≡ some content
  pub now : files' ≡ put dest (some content) (remove source files)

rename-Renamed :
    (works : Bool) (source dest : Text) (files files' : Files)
    → rename works source dest files ≡ some files'
    → Renamed source dest files files'
unfolding rename
rename-Renamed false source dest files files' e = cc
rename-Renamed true source dest files files' e = at (files source) refl e
  where
    at :
        (o : Option Text)
        → files source ≡ o
        → elim o [
          | none ↦ none
          | some content ↦ some (put dest (some content) (remove source files))
        ]
          ≡ some files'
        → Renamed source dest files files'
    at none was e = cc
    at (some content) was e = record { content = content; was = was; now = cc }

rename-works :
    (source dest : Text) (files : Files) (content : Text)
    → files source ≡ some content
    → rename true source dest files ≡ some (put dest (some content) (remove source files))
unfolding rename
rename-works source dest files content was = rw (was, rename) refl

Renamed-dest :
    {source dest : Text} {files files' : Files} (r : Renamed source dest files files')
    → files' dest ≡ some r.content
Renamed-dest {source} {dest} {files} r =
    ap (λ f. f dest) r.now ∙ put-same dest (some r.content) (remove source files)

Renamed-other :
    {source dest q : Text} {files files' : Files}
    → dest ≢ q
    → source ≢ q
    → Renamed source dest files files'
    → files' q ≡ files q
Renamed-other {source} {dest} {q} {files} not_dest not_source r =
    ap (λ f. f q) r.now
    ∙ put-other dest q (some r.content) (remove source files) (differ dest q not_dest)
    ∙ put-other source q none files (differ source q not_source)

-- Three paths, no two of them equal.
pub record Apart (exe back new : Text) : Type 0 where
  pub exe_back : exe ≢ back
  pub exe_new : exe ≢ new
  pub back_new : back ≢ new

-- A swap that worked: the new file stands at `exe`, and the old one behind it.
pub record Swapped (exe back new : Text) (files files' : Files) : Type 0 where
  pub old : Text
  pub content : Text
  pub was_old : files exe ≡ some old
  pub was_new : files new ≡ some content
  pub now_new : files' exe ≡ some content
  pub now_old : files' back ≡ some old

pub swap_in-Swapped :
    (w : Renames) (exe back new : Text) (files files' : Files)
    → Apart exe back new
    → swap_in w exe back new (rename w.aside exe back files) files ≡ (true, files')
    → Swapped exe back new files files'
swap_in-Swapped w exe back new files files' a e = at (rename w.aside exe back files) refl e
  where
    placed-is : {b : Bool} {f g : Files} → ◌≡◌ {A = Bool × Files} (b, f) (b, g) → g ≡ f
    placed-is e = cc

    second :
        (moved : Files)
        → Renamed exe back files moved
        → (o : Option Files) → rename w.into_place new exe moved ≡ o
        → end_swap w exe back o moved ≡ (true, files')
        → Swapped exe back new files files'
    second moved m none r e = cc
    second moved m (some placed) r e =
        let p = rename-Renamed w.into_place new exe moved placed r in
        record {
          old = m.content;
          content = p.content;
          was_old = m.was;
          was_new = sym (Renamed-other a.back_new a.exe_new m) ∙ p.was;
          now_new = ap (λ f. f exe) (placed-is e) ∙ Renamed-dest p;
          now_old =
              ap (λ f. f back) (placed-is e)
              ∙ Renamed-other a.exe_back (λ same. a.back_new (sym same)) p
              ∙ Renamed-dest m;
        }

    at :
        (o : Option Files)
        → rename w.aside exe back files ≡ o
        → swap_in w exe back new o files ≡ (true, files')
        → Swapped exe back new files files'
    at none r e = cc
    at (some moved) r e =
        second moved (rename-Renamed w.aside exe back files moved r)
          (rename w.into_place new exe moved) refl e

-- A swap that did not work leaves the file at `exe` in place, if the undo works.
pub swap_in-kept :
    (w : Renames) (exe back new : Text) (files files' : Files)
    → w.undo ≡ true
    → swap_in w exe back new (rename w.aside exe back files) files ≡ (false, files')
    → files' exe ≡ files exe
swap_in-kept w exe back new files files' undo e = at (rename w.aside exe back files) refl e
  where
    left-is : {f g : Files} → ◌≡◌ {A = Bool × Files} (false, f) (false, g) → g ≡ f
    left-is e = cc

    second :
        (moved : Files)
        → Renamed exe back files moved
        → (o : Option Files) → end_swap w exe back o moved ≡ (false, files')
        → files' exe ≡ files exe
    second moved m none e =
        let works : rename w.undo back exe moved
            ≡ some (put exe (some m.content) (remove back moved)) =
          ap (λ b. rename b back exe moved) undo
          ∙ rename-works back exe moved m.content (Renamed-dest m) in
        ap (λ f. f exe) (left-is e ∙ ap (λ o. renamed_or o moved) works)
        ∙ put-same exe (some m.content) (remove back moved)
        ∙ sym m.was
    second moved m (some placed) e = cc

    at :
        (o : Option Files)
        → rename w.aside exe back files ≡ o
        → swap_in w exe back new o files ≡ (false, files')
        → files' exe ≡ files exe
    at none r e = ap (λ f. f exe) (left-is e)
    at (some moved) r e =
        second moved (rename-Renamed w.aside exe back files moved r)
          (rename w.into_place new exe moved) e
