-- ===== src/Agent/Store/ProjectId.antt =====
-- The project ids of slots: agent/src/store.rs.
pub mod Recorded
pub mod Counter
pub mod Fresh
use kubimo.Common.{
  ℕ, zero, suc, ◌+◌, ◌-◌, ◌^◌, ◌++◌, length, Bool, true, false, Option, none, some, List, [], ◌∷◌,
  ltb, leb, is_some, and_then, if◌then◌else◌, unwrap_or,
}
use kubimo.Common.Result.{Result, ok, err}
use kubimo.Common.Text.{Text, strip_prefix, trim, as_bytes, utf8}
use kubimo.Common.Text.Decimal.{parse_u32, print_padded}
use kubimo.Agent.Volume.{
  StoreError, project_id_exhausted, File, Volume, Store, get_file, gets, lift, pure, read, attempt,
  written, put_file, ◌>>=◌, ◌>>◌,
}
use kubimo.Agent.Store.Names.{project_id_prefix, counter_path}

abbrev pub first_project_id : ℕ
first_project_id = 1000

abbrev pub counter_width : ℕ
counter_width = 10

-- `u32::checked_add(1)`
unfoldable pub checked_next : ℕ → Option ℕ
checked_next n = if ltb (n + 1) (2 ^ 32) then some (n + 1) else none

-- The id that a `projid-` file records.
unfoldable pub recorded_id : Text × File → Option ℕ
recorded_id (name, f) =
    and_then (strip_prefix project_id_prefix name)
      (λ _. and_then f.content (λ raw. parse_u32 (trim raw)))

larger : Option ℕ → Option ℕ → Option ℕ
larger none m = m
larger (some n) none = some n
larger (some n) (some m) = some (if leb n m then m else n)

unfoldable pub highest_issued_project_id : List (Text × File) → Option ℕ
unfolding recorded_id larger
highest_issued_project_id [] = none
highest_issued_project_id (f ∷ fs) = larger (recorded_id f) (highest_issued_project_id fs)

-- What the counter gives: the number it holds; the first id, if there was no counter; and past the
-- ids that are recorded, if the counter cannot be read as a number.
next_of : Bool → Option ℕ → Option ℕ → ℕ
next_of existed (some n) recovered = n
next_of false none recovered = first_project_id
next_of true none recovered = unwrap_or recovered first_project_id

unfoldable pub next_project_id : Bool → List (Text × File) → Text → ℕ
unfolding next_of highest_issued_project_id checked_next
next_project_id existed files raw =
    next_of existed (parse_u32 (trim raw)) (and_then (highest_issued_project_id files) checked_next)

-- What is left of a text without its first bytes; none if that cuts a character in two.
unfoldable pub drop_bytes : ℕ → Text → Option Text
drop_bytes zero s = some s
drop_bytes (suc k) [] = some []
drop_bytes (suc k) (c ∷ s) =
    let rest = drop_bytes (suc k - length (utf8 c)) s in
    if leb (length (utf8 c)) (suc k) then rest else none

-- A write at the start of an open file, which is not cut off behind it.
unfoldable pub overwritten : Text → Text → Volume → Volume
unfolding drop_bytes
overwritten raw body v = record v {
  files =
      put_file counter_path
        (record {
          content =
              and_then (drop_bytes (length (as_bytes body)) raw) (λ rest. some (body ++ rest));
          modified = v.clock;
        })
        v.files;
}

-- The counter file is created empty if it is missing.
unfoldable pub opened : Volume → Volume
opened v = if is_some (get_file counter_path v.files) then v else written counter_path [] v

pub issue : Text → ℕ → Option ℕ → Store ℕ
unfolding overwritten
issue raw n none = lift (err project_id_exhausted)
issue raw n (some following) = do
  attempt "writing project id counter" (overwritten raw (print_padded counter_width following))
  pure n

unfoldable pub allocate_project_id : Store ℕ
unfolding next_project_id issue checked_next opened
allocate_project_id = do
  existed ← gets (λ v. is_some (get_file counter_path v.files))
  attempt "opening project id counter" opened
  raw ← read "reading project id counter" counter_path
  n ← gets (λ v. next_project_id existed v.files raw)
  issue raw n (checked_next n)
