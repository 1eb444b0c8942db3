-- ===== src/Failover/Storage.antt =====
-- `atomic_write` of scripts/dr/seal-failover-evidence.py on a file system whose calls may fail.
use Prim.Native.String.{String}
use toi_no_mori_mvs.Common.{
  Bool, Bool-cases, Option, Option-cases, eq_iff, eq_refl, false, if◌then◌else◌,
}
use toi_no_mori_mvs.Common.{inl, inr, none, refl, some, str_eq, true, ◌||◌, ◌∙◌, ◌≡◌, ◌≢◌, ◌⊎◌}
use toi_no_mori_mvs.Python.Result.{Result, err, ok, os_error}

-- The text of each file that exists.
abbrev pub Files : Type 0
Files = String → Option String

abbrev pub put : (path content : String) → Files → Files
put path content files = λ other. if str_eq other path then some content else files other

abbrev pub remove : (path : String) → Files → Files
remove path files = λ other. if str_eq other path then none else files other

-- Which calls raise `OSError`: creating the parent directory, `mkstemp`, `fchmod`, the write with
-- what it wrote until then, `os.replace`, and `os.unlink` in the handler.
pub record Faults : Type 0 where
  pub parent : Bool
  pub temporary : Bool
  pub mode : Bool
  pub written : Option String
  pub replace : Bool
  pub unlink : Bool

abbrev pub Write : Type 0
Write = Files × Result (Unit {0})

-- The handler: the temporary file is removed, and the exception goes on.
abbrev pub discard : Faults → (temporary : String) → Files → Write
discard faults temporary files =
    if faults.unlink then (files, err os_error) else (remove temporary files, err os_error)

-- `temporary` is the name that `mkstemp` makes up.
unfoldable pub atomic_write : Faults → (temporary path content : String) → Files → Write
atomic_write faults temporary path content files =
    if faults.parent || faults.temporary
    then (files, err os_error)
    else if faults.mode
    then discard faults temporary (put temporary "" files)
    else elim (faults.written) [
      | some partial ↦ discard faults temporary (put temporary partial files)
      | none ↦
          if faults.replace
          then discard faults temporary (put temporary content files)
          else (put path content (remove temporary files), ok tt)
    ]

differs : (other path : String) → other ≢ path → str_eq other path ≡ false
differs other path h = elim (Bool-cases (str_eq other path)) [
  | inl same ↦ absurd (h ((eq_iff other path).0 same))
  | inr different ↦ different
]

pub put-same : (path content : String) (files : Files) → put path content files path ≡ some content
put-same path content files = rw (eq_refl path) refl

pub put-other :
    (path content other : String) (files : Files)
    → other ≢ path
    → put path content files other ≡ files other
put-other path content other files h = rw (differs other path h) refl

remove-other :
    (path other : String) (files : Files) → other ≢ path → remove path files other ≡ files other
remove-other path other files h = rw (differs other path h) refl

-- A property of both branches.
if-both {ℓ κ} :
    {A : Type ℓ} (P : A → Type κ) (b : Bool) {x y : A} → P x → P y → P (if b then x else y)
if-both P true h k = h
if-both P false h k = k

module _ (temporary path content : String) (files : Files) where
  -- The path has the new text where the call returns and keeps its own where it raises; no other
  -- file but the temporary one is touched.
  abbrev pub IsAtomic : Write → Type 0
  IsAtomic (after, outcome) =
      (((outcome ≡ ok tt) × (after path ≡ some content))
        ⊎ ((outcome ≡ err os_error) × (after path ≡ files path)))
      × ((other : String) → other ≢ temporary → other ≢ path → after other ≡ files other)

  module _ (fresh : path ≢ temporary) where
    discard-IsAtomic :
        (faults : Faults) (partial : String)
        → IsAtomic (discard faults temporary (put temporary partial files))
    discard-IsAtomic faults partial =
        if-both IsAtomic faults.unlink
          (
            inr (refl, put-other temporary partial path files fresh),
            λ other h k. put-other temporary partial other files h,
          )
          (
            inr (
              refl,
              remove-other temporary path (put temporary partial files) fresh
                  ∙ put-other temporary partial path files fresh,
            ),
            λ other h k.
                remove-other temporary other (put temporary partial files) h
                ∙ put-other temporary partial other files h,
          )

    -- However the calls of the file system fail, the path keeps its old text or has the new one in
    -- full: the new one exactly where `atomic_write` returns, the old one where it raises. No other
    -- file is touched, except that the temporary one may stay.
    pub atomic_write-IsAtomic :
        (faults : Faults) → IsAtomic (atomic_write faults temporary path content files)
    unfolding atomic_write
    atomic_write-IsAtomic faults =
        if-both IsAtomic (faults.parent || faults.temporary) (inr (refl, refl), λ other h k. refl)
          (if-both IsAtomic faults.mode (discard-IsAtomic faults "")
            (elim (Option-cases faults.written) [
              | inr (partial, failed) ↦ rw failed (discard-IsAtomic faults partial)
              | inl written ↦ rw written (
                  if-both IsAtomic faults.replace (discard-IsAtomic faults content) (
                    inl (refl, put-same path content (remove temporary files)),
                    λ other h k.
                        put-other path content other (remove temporary files) k
                        ∙ remove-other temporary other files h,
                  ))
            ]))
