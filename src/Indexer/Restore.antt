-- ===== src/Indexer/Restore.antt =====
-- What a restore makes of a manifest: indexer/src/restore.rs. A url is its text, a secret matcher
-- is the test whether its patterns match a path or a parent of it.
pub mod Safe
use kubimo.Common.{
  ℕ, Bool, true, false, ◌||◌, Option, none, some, List, [], ◌∷◌, ◌++◌, is_some, and_then, unwrap_or,
  if◌then◌else◌,
}
use kubimo.Api.Meta.{Timestamp}
use kubimo.Common.Result.{Result, ok, err, ◌>>=◌, ◌>>◌}
use kubimo.Common.Text.{Text, codes, same_text, strip_prefix}
use kubimo.Indexer.Paths.{
  Component, normal, components, ends_slash, PlanError, foreign_content, safe_relative_path,
  safe_entry_path,
}

pub record Content : Type 0 where
  pub url : Text
  pub crc32 : Option ℕ

-- `directory` is whether the entry is one; the others say what it holds if it is such.
pub record DirEntry : Type 0 where
  pub name : Text
  pub modified : Option Timestamp
  pub directory : Bool
  pub file : Option (Option Content)
  pub symlink : Option (Option Text)

pub record ManifestDirectory : Type 0 where
  pub path : Text
  pub entries : List DirEntry

pub record RestoreFile : Type 0 where
  pub path : Text
  pub url : Text
  pub crc32 : Option ℕ
  pub modified : Option Timestamp

pub record RestorePlan : Type 0 where
  pub directories : List Text
  pub symlinks : List (Text × Text)
  pub files : List RestoreFile
  pub skipped : List Text
  pub secret_files : List RestoreFile

pub record ArchiveOrigin : Type 0 where
  pub bucket : Text
  pub key_prefix : Option Text

anchored : Text → Text
unfolding ends_slash
anchored [] = []
anchored (c ∷ s) = if ends_slash (c ∷ s) then c ∷ s else (c ∷ s) ++ (b'/' ∷ [])

unfoldable pub base : ArchiveOrigin → Text
unfolding anchored
base origin = codes "s3://" ++ (origin.bucket ++ (b'/' ∷ anchored (unwrap_or origin.key_prefix [])))

-- `str::starts_with`
abbrev pub starts_with : Text → Text → Bool
starts_with s prefix = is_some (strip_prefix prefix s)

unfoldable pub check : ArchiveOrigin → Text → Result PlanError (Unit {0})
check origin url =
    if starts_with url (base origin) then ok tt else err (foreign_content url (base origin))

last_name : List Component → Option Text
last_name [] = none
last_name (normal name ∷ []) = some name
last_name (_ ∷ []) = none
last_name (_ ∷ c ∷ cs) = last_name (c ∷ cs)

unfoldable pub is_dotenv : Option Text → Bool
is_dotenv none = false
is_dotenv (some name) = same_text name (codes ".env")

module _ (ignored : Text → Bool) where
  unfoldable pub is_secret : Text → Bool
  unfolding last_name is_dotenv
  is_secret path = is_dotenv (last_name (components path)) || ignored path

  -- The step of the plan that a path takes, after its test.
  add_directory : Text → RestorePlan → RestorePlan
  add_directory path plan = record plan { directories = plan.directories ++ (path ∷ []) }

  add_skipped : Text → RestorePlan → RestorePlan
  add_skipped path plan = record plan { skipped = plan.skipped ++ (path ∷ []) }

  add_symlink : Text → Option Text → RestorePlan → RestorePlan
  unfolding add_skipped
  add_symlink path none plan = add_skipped path plan
  add_symlink path (some target) plan = record plan {
    symlinks = plan.symlinks ++ ((path, target) ∷ []);
  }

  add_file : RestoreFile → RestorePlan → RestorePlan
  add_file file plan =
      if is_secret file.path
      then record plan { secret_files = plan.secret_files ++ (file ∷ []) }
      else record plan { files = plan.files ++ (file ∷ []) }

  plan_content :
      ArchiveOrigin
      → Text
      → Option Timestamp
      → Option Content
      → RestorePlan
      → Result PlanError RestorePlan
  unfolding add_file add_skipped
  plan_content origin path modified none plan =
      ok (if is_secret path then plan else add_skipped path plan)
  plan_content origin path modified (some content) plan = do
    check origin content.url
    ok (
        add_file
          (record { path = path; url = content.url; crc32 = content.crc32; modified = modified })
          plan)

  plan_leaf :
      ArchiveOrigin
      → Text
      → DirEntry
      → Option (Option Text)
      → Option (Option Content)
      → RestorePlan
      → Result PlanError RestorePlan
  unfolding plan_content add_symlink add_skipped
  plan_leaf origin path entry (some target) _ plan =
      ok (if is_secret path then plan else add_symlink path target plan)
  plan_leaf origin path entry none (some content) plan =
      plan_content origin path entry.modified content plan
  plan_leaf origin path entry none none plan = ok (add_skipped path plan)

  plan_at : ArchiveOrigin → Text → DirEntry → Bool → RestorePlan → Result PlanError RestorePlan
  unfolding plan_leaf add_directory
  plan_at origin path entry true plan = ok (add_directory path plan)
  plan_at origin path entry false plan = plan_leaf origin path entry entry.symlink entry.file plan

  plan_entry : ArchiveOrigin → Text → DirEntry → RestorePlan → Result PlanError RestorePlan
  unfolding plan_at
  plan_entry origin dir entry plan = do
    path ← safe_entry_path dir entry.name
    plan_at origin path entry entry.directory plan

  plan_entries : ArchiveOrigin → Text → List DirEntry → RestorePlan → Result PlanError RestorePlan
  unfolding plan_entry
  plan_entries origin dir [] plan = ok plan
  plan_entries origin dir (entry ∷ entries) plan =
      plan_entry origin dir entry plan >>= plan_entries origin dir entries

  add_own : Text → RestorePlan → RestorePlan
  unfolding add_directory
  add_own [] plan = plan
  add_own (c ∷ s) plan = add_directory (c ∷ s) plan

  plan_directory : ArchiveOrigin → ManifestDirectory → RestorePlan → Result PlanError RestorePlan
  unfolding plan_entries add_own
  plan_directory origin directory plan = do
    dir ← safe_relative_path directory.path
    plan_entries origin dir directory.entries (add_own dir plan)

  plan_directories :
      ArchiveOrigin → List ManifestDirectory → RestorePlan → Result PlanError RestorePlan
  unfolding plan_directory
  plan_directories origin [] plan = ok plan
  plan_directories origin (directory ∷ rest) plan =
      plan_directory origin directory plan >>= plan_directories origin rest

  unfoldable pub plan_restore :
      ArchiveOrigin → List ManifestDirectory → Result PlanError RestorePlan
  unfolding plan_directories
  plan_restore origin directories =
      plan_directories origin directories
        (record { directories = []; symlinks = []; files = []; skipped = []; secret_files = [] })
