-- ===== src/Ocel/Spool.antt =====
-- `atomic_spool`: the payload goes to a temporary file beside the output, which then takes the
-- output's name. The steps are those at which a crash may stop the script.
pub mod Laws
use ex4pm.Json.{Exception, os_error}
use ex4pm.Prelude.{
  ℕ, zero, suc, String, refl, sym, ap, ◌∙◌, ◌≡◌, ◌≢◌, ◌⊎◌, inl, inr, Bool, true, false, List, [],
  ◌∷◌, ◌++◌, Option, none, some, Result, ok, err, arith, ◌==◌, string_Eq, eq_iff, if◌then◌else◌,
}

-- A file system: the bytes of the file with a name, if there is one
abbrev pub Disk : Type 0
Disk = String → Option (List ℕ)

abbrev pub put : String → Option (List ℕ) → Disk → Disk
put name bytes disk = λ other. if other == name then bytes else disk other

-- How far the script is: with the bytes that are written and those that are left, once the
-- temporary file is open
pub data Phase : Type 0 where
  start : Phase
  writing : List ℕ → List ℕ → Phase
  replaced : Phase

pub record Spooling : Type 0 where
  pub phase : Phase
  pub disk : Disk

module _ (temporary output : String) (payload : List ℕ) where
  -- `NamedTemporaryFile`, `write` (which may reach the disk in pieces) with `flush` and `fsync`, and
  -- `os.replace`
  pub data Step (s t : Spooling) : Type 0 where
    create :
        s.phase ≡ start
        → t ≡ record { phase = writing [] payload; disk = put temporary (some []) s.disk }
        → Step s t
    write :
        (done piece left : List ℕ)
        → s.phase ≡ writing done (piece ++ left)
        → t ≡ record {
          phase = writing (done ++ piece) left;
          disk = put temporary (some (done ++ piece)) s.disk;
        }
        → Step s t
    replace :
        (done : List ℕ)
        → s.phase ≡ writing done []
        → t ≡ record {
          phase = replaced;
          disk = put temporary none (put output (s.disk temporary) s.disk);
        }
        → Step s t

  -- What a crash may find after some steps from `s`
  pub data Reach (s : Spooling) : Spooling → Type 0 where
    here : Reach s s
    next : {t u : Spooling} → Reach s t → Step t u → Reach s u

-- How far the file system lets the script go: the directory or the temporary file cannot be made,
-- `write`, `flush`, `fsync` or the closing fails after so many bytes, `os.replace` fails, or all goes
-- well.
pub data Fate : Type 0 where
  not_made : Fate
  cut_off : ℕ → Fate
  not_replaced : Fate
  complete : Fate

-- What spooling depends on: `Path.resolve`, the name that `NamedTemporaryFile` chooses, and the fate
-- of a payload at an output
pub record Directory : Type 0 where
  pub resolve : String → String
  pub temporary_of : String → String
  pub fate : String → List ℕ → Fate
  pub disk : Disk

-- The part of the payload that has been written
abbrev pub first_bytes : ℕ → List ℕ → List ℕ
first_bytes zero payload = []
first_bytes (suc n) [] = []
first_bytes (suc n) (b ∷ payload) = b ∷ first_bytes n payload

-- The files once these bytes are in the temporary file, and once it has the output's name
abbrev pub part_written : String → List ℕ → Disk → Disk
part_written temporary bytes disk = put temporary (some bytes) (put temporary (some []) disk)

abbrev pub moved : String → String → List ℕ → Disk → Disk
moved temporary output payload disk =
    let full = part_written temporary payload disk in
    put temporary none (put output (full temporary) full)

abbrev pub spool_by : Fate → String → String → List ℕ → Disk → Disk × Result Exception String
spool_by not_made temporary output payload disk = (disk, err os_error)
spool_by (cut_off n) temporary output payload disk =
    (part_written temporary (first_bytes n payload) disk, err os_error)
spool_by not_replaced temporary output payload disk =
    (part_written temporary payload disk, err os_error)
spool_by complete temporary output payload disk = (moved temporary output payload disk, ok output)

-- The whole function: the files that it leaves, and the name of the output or the exception. With
-- `delete=False` the temporary file stays where it fails.
unfoldable pub atomic_spool : Directory → List ℕ → String → Disk × Result Exception String
atomic_spool d payload raw =
    let output = d.resolve raw in
    spool_by (d.fate output payload) (d.temporary_of output) output payload d.disk
