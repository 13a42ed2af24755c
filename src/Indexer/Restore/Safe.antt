-- ===== src/Indexer/Restore/Safe.antt =====
-- A plan stays in the directory that it restores to: indexer/src/restore.rs.
use kubimo.Common.{
  Bool, true, false, ◌≡◌, sym, Option, none, some, List, [], ◌∷◌, ◌++◌, Bool-cases, inl, inr,
}
use mathlib.Core.Path.{subst}
use kubimo.Common.Result.{ok, ok_parts, ok-ok}
use kubimo.Common.Text.{Text}
use kubimo.Api.Meta.{Timestamp}
use kubimo.Indexer.Paths.{safe_relative_path, safe_entry_path}
use kubimo.Indexer.Paths.Inside.{Inside, safe_relative-Inside, safe_entry-Inside}
use kubimo.Indexer.Restore.{
  Content, DirEntry, ManifestDirectory, RestoreFile, RestorePlan, ArchiveOrigin, base, starts_with,
  check, is_secret, add_directory, add_skipped, add_symlink, add_file, plan_content, plan_leaf,
  plan_at, plan_entry, plan_entries, add_own, plan_directory, plan_directories, plan_restore,
}

abbrev pub All {ℓ κ} : {A : Type ℓ} → (A → Type κ) → List A → Type κ
All P [] = Unit
All P (x ∷ xs) = P x × All P xs

All-snoc {ℓ κ} :
    {A : Type ℓ} (P : A → Type κ) (xs : List A) (x : A) → All P xs → P x → All P (xs ++ (x ∷ []))
All-snoc P [] x h p = (p, tt)
All-snoc P (y ∷ xs) x (q, h) p = (q, All-snoc P xs x h p)

module _ (ignored : Text → Bool) (origin : ArchiveOrigin) where
  -- What is written stays inside, what is fetched comes from the archive, and what is written as an
  -- ordinary file or link is no secret.
  pub record Contained (plan : RestorePlan) : Type 0 where
    pub directories : All Inside plan.directories
    pub skipped : All Inside plan.skipped
    pub symlinks : All (λ (path, _). Inside path × (is_secret ignored path ≡ false)) plan.symlinks
    pub files :
        All
          (λ file.
            Inside file.path
            × (starts_with file.url (base origin) ≡ true)
            × (is_secret ignored file.path ≡ false))
          plan.files
    pub secret_files :
        All
          (λ file.
            Inside file.path
            × (starts_with file.url (base origin) ≡ true)
            × (is_secret ignored file.path ≡ true))
          plan.secret_files

  check-starts : (url : Text) → check origin url ≡ ok tt → starts_with url (base origin) ≡ true
  unfolding check
  check-starts url h = elim (Bool-cases (starts_with url (base origin))) [
    | inl e ↦ e
    | inr e ↦ cc (rw e at h)
  ]

  directory-Contained :
      (path : Text) (plan : RestorePlan)
      → Inside path
      → Contained plan
      → Contained (add_directory ignored path plan)
  unfolding add_directory
  directory-Contained path plan i c = record {
    directories = All-snoc Inside plan.directories path c.directories i;
    skipped = c.skipped;
    symlinks = c.symlinks;
    files = c.files;
    secret_files = c.secret_files;
  }

  skipped-Contained :
      (path : Text) (plan : RestorePlan)
      → Inside path
      → Contained plan
      → Contained (add_skipped ignored path plan)
  unfolding add_skipped
  skipped-Contained path plan i c = record {
    directories = c.directories;
    skipped = All-snoc Inside plan.skipped path c.skipped i;
    symlinks = c.symlinks;
    files = c.files;
    secret_files = c.secret_files;
  }

  symlink-Contained :
      (path : Text) (target : Option Text) (plan : RestorePlan)
      → Inside path
      → is_secret ignored path ≡ false
      → Contained plan
      → Contained (add_symlink ignored path target plan)
  unfolding add_symlink
  symlink-Contained path none plan i open_ c = skipped-Contained path plan i c
  symlink-Contained path (some target) plan i open_ c = record {
    directories = c.directories;
    skipped = c.skipped;
    symlinks = All-snoc _ plan.symlinks (path, target) c.symlinks (i, open_);
    files = c.files;
    secret_files = c.secret_files;
  }

  file-Contained :
      (file : RestoreFile) (plan : RestorePlan)
      → Inside file.path
      → starts_with file.url (base origin) ≡ true
      → Contained plan
      → Contained (add_file ignored file plan)
  unfolding add_file
  file-Contained file plan i own c = elim (Bool-cases (is_secret ignored file.path)) [
    | inl e ↦ rw e (record {
      directories = c.directories;
      skipped = c.skipped;
      symlinks = c.symlinks;
      files = c.files;
      secret_files = All-snoc _ plan.secret_files file c.secret_files (i, own, e);
    })
    | inr e ↦ rw e (record {
      directories = c.directories;
      skipped = c.skipped;
      symlinks = c.symlinks;
      files = All-snoc _ plan.files file c.files (i, own, e);
      secret_files = c.secret_files;
    })
  ]

  plan_content-Contained :
      (path : Text) (modified : Option Timestamp) (content : Option Content)
      (plan found : RestorePlan)
      → Inside path
      → Contained plan
      → plan_content ignored origin path modified content plan ≡ ok found
      → Contained found
  unfolding plan_content
  plan_content-Contained path modified none plan found i c h =
      elim (Bool-cases (is_secret ignored path)) [
        | inl e ↦ subst Contained (ok-ok (rw e at h)) c
        | inr e ↦ subst Contained (ok-ok (rw e at h)) (skipped-Contained path plan i c)
      ]
  plan_content-Contained path modified (some content) plan found i c h =
      let (_, own, last) = ok_parts (check origin content.url) _ h in
      subst Contained (ok-ok last) (file-Contained _ plan i (check-starts content.url own) c)

  plan_leaf-Contained :
      (path : Text) (entry : DirEntry) (symlink : Option (Option Text))
      (file : Option (Option Content)) (plan found : RestorePlan)
      → Inside path
      → Contained plan
      → plan_leaf ignored origin path entry symlink file plan ≡ ok found
      → Contained found
  unfolding plan_leaf
  plan_leaf-Contained path entry (some target) file plan found i c h =
      elim (Bool-cases (is_secret ignored path)) [
        | inl e ↦ subst Contained (ok-ok (rw e at h)) c
        | inr e ↦ subst Contained (ok-ok (rw e at h)) (symlink-Contained path target plan i e c)
      ]
  plan_leaf-Contained path entry none (some content) plan found i c h =
      plan_content-Contained path entry.modified content plan found i c h
  plan_leaf-Contained path entry none none plan found i c h =
      subst Contained (ok-ok h) (skipped-Contained path plan i c)

  plan_at-Contained :
      (path : Text) (entry : DirEntry) (is_directory : Bool) (plan found : RestorePlan)
      → Inside path
      → Contained plan
      → plan_at ignored origin path entry is_directory plan ≡ ok found
      → Contained found
  unfolding plan_at
  plan_at-Contained path entry true plan found i c h =
      subst Contained (ok-ok h) (directory-Contained path plan i c)
  plan_at-Contained path entry false plan found i c h =
      plan_leaf-Contained path entry entry.symlink entry.file plan found i c h

  plan_entries-Contained :
      (dir : Text) (entries : List DirEntry) (plan found : RestorePlan)
      → Inside dir
      → Contained plan
      → plan_entries ignored origin dir entries plan ≡ ok found
      → Contained found
  unfolding plan_entries plan_entry
  plan_entries-Contained dir [] plan found i c h = subst Contained (ok-ok h) c
  plan_entries-Contained dir (entry ∷ entries) plan found i c h =
      let (next, first, rest) = ok_parts (plan_entry ignored origin dir entry plan) _ h in
      let (path, safe, step) = ok_parts (safe_entry_path dir entry.name) _ first in
      let inside = safe_entry-Inside dir entry.name path i safe in
      plan_entries-Contained dir entries next found i
        (plan_at-Contained path entry entry.directory plan next inside c step) rest

  own-Contained :
      (dir : Text) (plan : RestorePlan)
      → Inside dir
      → Contained plan
      → Contained (add_own ignored dir plan)
  unfolding add_own
  own-Contained [] plan i c = c
  own-Contained (x ∷ s) plan i c = directory-Contained (x ∷ s) plan i c

  plan_directories-Contained :
      (directories : List ManifestDirectory) (plan found : RestorePlan)
      → Contained plan
      → plan_directories ignored origin directories plan ≡ ok found
      → Contained found
  unfolding plan_directories plan_directory
  plan_directories-Contained [] plan found c h = subst Contained (ok-ok h) c
  plan_directories-Contained (directory ∷ rest) plan found c h =
      let (next, first, last) = ok_parts (plan_directory ignored origin directory plan) _ h in
      let (dir, safe, step) = ok_parts (safe_relative_path directory.path) _ first in
      let (same, outer) = safe_relative-Inside directory.path dir safe in
      let inside = subst Inside (sym same) outer in
      plan_directories-Contained rest next found
        (plan_entries-Contained dir directory.entries _ next inside
          (own-Contained dir plan inside c) step)
        last

  -- In a plan that is made of a manifest, whatever it says, every path is relative and goes down by
  -- names only, every url starts with the place of the archive, no ordinary file and no link is a
  -- secret, and every diverted file is one.
  pub plan_restore-Contained :
      (directories : List ManifestDirectory) (plan : RestorePlan)
      → plan_restore ignored origin directories ≡ ok plan
      → Contained plan
  unfolding plan_restore
  plan_restore-Contained directories plan h =
      plan_directories-Contained directories _ plan
        (record { directories = tt; skipped = tt; symlinks = tt; files = tt; secret_files = tt }) h
