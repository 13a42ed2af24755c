-- ===== src/Indexer/Examples.antt =====
-- Manifests and variables that the indexer's theorems apply to: indexer/src/restore.rs and
-- indexer/src/secrets.rs.
use mathlib.Core.Path.{◌≡◌, refl}
use kubimo.Common.{Bool, false, none, some, List, [], ◌∷◌}
use kubimo.Common.Result.{ok}
use kubimo.Common.Text.{Text, codes, is_whitespace}
use kubimo.Indexer.Paths.{safe_relative_path, safe_entry_path}
use kubimo.Indexer.Restore.{
  DirEntry, ManifestDirectory, RestorePlan, ArchiveOrigin, base, check, is_secret, is_dotenv,
  plan_restore,
}
use kubimo.Indexer.Restore.Safe.{Contained, plan_restore-Contained}
use kubimo.Indexer.Dotenv.{parse_dotenv, render_dotenv}
use kubimo.Indexer.Dotenv.RoundTrip.{Writable, parse_dotenv-render_dotenv}

abbrev no_pattern : Text → Bool
no_pattern _ = false

abbrev mine : ArchiveOrigin
mine = record { bucket = codes "b"; key_prefix = some (codes "w/1") }

abbrev stored : Text → Text → DirEntry
stored name url = record {
  name = name;
  modified = none;
  directory = false;
  file = some (some (record { url = url; crc32 = some 7 }));
  symlink = none;
}

abbrev link : DirEntry
link = record {
  name = codes "l";
  modified = none;
  directory = false;
  file = none;
  symlink = some (some (codes "a.py"));
}

abbrev manifest : List ManifestDirectory
manifest =
    record {
      path = [];
      entries =
          stored (codes "a.py") (codes "s3://b/w/1/x")
          ∷ stored (codes ".env") (codes "s3://b/w/1/y")
          ∷ link
          ∷ [];
    }
    ∷ []

abbrev planned : RestorePlan
planned = record {
  directories = [];
  symlinks = (codes "l", codes "a.py") ∷ [];
  files =
      record { path = codes "a.py"; url = codes "s3://b/w/1/x"; crc32 = some 7; modified = none }
      ∷ [];
  skipped = [];
  secret_files =
      record { path = codes ".env"; url = codes "s3://b/w/1/y"; crc32 = some 7; modified = none }
      ∷ [];
}

manifest-planned : plan_restore no_pattern mine manifest ≡ ok planned
unfolding plan_restore check is_secret is_dotenv base safe_relative_path safe_entry_path
manifest-planned = refl

plan_restore-Contained_example : Contained no_pattern mine planned
plan_restore-Contained_example =
    plan_restore-Contained no_pattern mine manifest planned manifest-planned

abbrev variables : List (Text × Text)
variables = (codes "KEY", codes "a \"b\" ") ∷ (codes "OTHER", []) ∷ []

variables-Writable : Writable variables
unfolding is_whitespace
variables-Writable = (
  (refl, (refl, (refl, (refl, tt))), refl),
  (refl, refl, (refl, refl, (refl, refl, (refl, refl, (refl, refl, (refl, refl, tt)))))),
  ((refl, (refl, (refl, (refl, (refl, (refl, tt))))), refl), tt, tt),
)

parse_dotenv-render_dotenv_example : parse_dotenv (render_dotenv variables) ≡ variables
parse_dotenv-render_dotenv_example =
    parse_dotenv-render_dotenv variables variables-Writable (refl, (refl, tt))
