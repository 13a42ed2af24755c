-- ===== src/Agent/Volume.antt =====
-- The data volume of a node, as agent/src/store.rs uses it: the files of `.index` and the slot
-- directories. An operation may fail, and what it wrote before stays written.
pub mod Laws
use kubimo.Common.{
  ℕ, String, Bool, true, false, ◌≡◌, refl, Option, none, some, List, [], ◌∷◌, any, filter, find,
  map, not, lookup, ◌==◌, if◌then◌else◌, arith, is_some, and_then, ◌<◌, ◌≤◌, inl, inr, ◌⊎◌,
}
use kubimo.Common.Result.{Result, ok, err, ok_or}
use kubimo.Common.Text.{Text, codes_partial_eq}
use kubimo.Agent.Slot.{SlotId, SlotIdError}

pub data StoreError : Type 0 where
  invalid_workspace_name : Text → StoreError
  corrupt_index : Text → SlotIdError → StoreError
  project_id_exhausted : StoreError
  io : String → StoreError

-- A file: its text, or none if it cannot be read as text, and when it was last written.
pub record File : Type 0 where
  pub content : Option Text
  pub modified : ℕ

-- The volume, the clock, and what the next changes of the volume come to: true for one that fails.
pub record Volume : Type 0 where
  pub files : List (Text × File)
  pub slots : List Text
  pub clock : ℕ
  pub faults : List Bool

abbrev pub get_file : Text → List (Text × File) → Option File
get_file name [] = none
get_file name ((other, f) ∷ fs) = if other == name then some f else get_file name fs

abbrev pub put_file : Text → File → List (Text × File) → List (Text × File)
put_file name f [] = (name, f) ∷ []
put_file name f ((other, g) ∷ fs) =
    if other == name then (name, f) ∷ fs else (other, g) ∷ put_file name f fs

abbrev pub drop_file : Text → List (Text × File) → List (Text × File)
drop_file name [] = []
drop_file name ((other, g) ∷ fs) =
    let rest = drop_file name fs in if other == name then rest else (other, g) ∷ rest

abbrev pub has_slot : Text → List Text → Bool
has_slot id slots = any (λ s. s == id) slots

abbrev pub Store : Type 0 → Type 0
Store A = Volume → Result StoreError A × Volume

module _ {A : Type 0} where
  abbrev pub pure : A → Store A
  pure a v = (ok a, v)

  abbrev pub lift : Result StoreError A → Store A
  lift r v = (r, v)

  abbrev pub gets : (Volume → A) → Store A
  gets f v = (ok (f v), v)

module _ {A B : Type 0} where
  abbrev pub continue : Result StoreError A → (A → Store B) → Store B
  continue (ok a) f v = f a v
  continue (err e) f v = (err e, v)

  infixl 5 ◌>>=◌ ◌>>◌
  abbrev pub ◌>>=◌ : Store A → (A → Store B) → Store B
  m >>= f = λ v. let (r, v') = m v in continue r f v'

  abbrev pub ◌>>◌ : Store A → Store B → Store B
  m >> n = m >>= λ _. n

-- One change of the volume, or the failure that is due.
abbrev pub attempt_with : List Bool → String → (Volume → Volume) → Store (Unit {0})
attempt_with [] context change v = (ok tt, change v)
attempt_with (false ∷ rest) context change v = (ok tt, record (change v) { faults = rest })
attempt_with (true ∷ rest) context change v = (err (io context), record v { faults = rest })

unfoldable pub attempt : String → (Volume → Volume) → Store (Unit {0})
attempt context change v = attempt_with v.faults context change v

abbrev pub written : Text → Text → Volume → Volume
written name body v = record v {
  files = put_file name (record { content = some body; modified = v.clock }) v.files;
}

abbrev pub removed : Text → Volume → Volume
removed name v = record v { files = drop_file name v.files }

-- `std::fs::write`
unfoldable pub write : String → Text → Text → Store (Unit {0})
unfolding attempt
write context name body = attempt context (written name body)

-- `std::fs::remove_file`, where a missing file is no error
unfoldable pub remove_opt : String → Text → Store (Unit {0})
unfolding attempt
remove_opt context name v =
    if is_some (get_file name v.files) then attempt context (removed name) v else (ok tt, v)

-- `let _ = std::fs::remove_file(..)`: a failure is ignored.
unfoldable pub try_remove : Text → Store (Unit {0})
unfolding attempt
try_remove name v = let (_, v') = attempt "removing a file" (removed name) v in (ok tt, v')

-- `create_dir_all` and `remove_dir_all` of a slot directory
unfoldable pub create_slot_dir : SlotId → Store (Unit {0})
unfolding attempt
create_slot_dir id =
    attempt "creating slot dir" (λ v. record v {
      slots = if has_slot id.as_str v.slots then v.slots else id.as_str ∷ v.slots;
    })

unfoldable pub remove_slot_dir : SlotId → Store (Unit {0})
unfolding attempt
remove_slot_dir id v =
    if has_slot id.as_str v.slots
    then attempt "removing slot dir"
        (λ w. record w { slots = filter (λ s. not (s == id.as_str)) w.slots }) v
    else (ok tt, v)

-- `read_to_string`, with a missing file as none
unfoldable pub read_content : String → Option Text → Result StoreError (Option Text)
read_content context none = err (io context)
read_content context (some text) = ok (some text)

unfoldable pub read_file : String → Option File → Result StoreError (Option Text)
unfolding read_content
read_file context none = ok none
read_file context (some f) = read_content context f.content

unfoldable pub read_opt : String → Text → Store (Option Text)
unfolding read_file
read_opt context name v = (read_file context (get_file name v.files), v)

-- `read_to_string` where a missing file is an error
unfoldable pub read : String → Text → Store Text
read context name v = (ok_or (and_then (get_file name v.files) (λ f. f.content)) (io context), v)
