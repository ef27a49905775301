-- ===== src/VersionSet/Lookup.antt =====
-- src/version_set/version_set.rs: `Version::get`, which asks the files that may hold a key, from the
-- newest on. What reads a file is the argument `lookup`, of a file's number and the internal key.
pub mod Charge
pub mod Newest
mod Examples
use Prim.Native.Nat.{compare, Ordering}
use pulsearc_db.Base.{
  ℕ, zero, suc, ◌+◌, ◌-◌, Bool, true, false, Bytes, List, [], ◌∷◌, Option, none, some, get_elem?,
  if◌then◌else◌,
}
use pulsearc_db.Base.Options.{◌>>=◌}
use pulsearc_db.Base.Sort.{sort_by}
use pulsearc_db.Result.{Result, ok, err, panicked}
use pulsearc_db.Comparator.{Comparator}
use pulsearc_db.Format.{num_levels}
use pulsearc_db.VersionSet.FileMetaData.{FileMetaData}
use pulsearc_db.VersionSet.Compaction.{covers}
use pulsearc_db.VersionSet.Seeks.{Seeks, decrement_seek_allowance, candidate}

pub data LookupResult : Type 0 where
  found : Bytes → LookupResult
  not_found : LookupResult
  deleted : LookupResult

-- The local variables of `get`, and the seek state, which it changes.
pub record Reading : Type 0 where
  pub seeks : Seeks
  pub last_file_read : Option (ℕ × ℕ)
  pub charged_seek_file : Bool

abbrev pub Answer : Type 0
Answer = Seeks × Result (Option Bytes)

unfoldable pub by_newest : FileMetaData → FileMetaData → Option Ordering
by_newest a b = some (compare b.number a.number)

-- Once a second file is read, the one before it is charged.
unfoldable pub charge : Reading → Reading
charge r = elim r.last_file_read [
  | none ↦ r
  | some (level, number) ↦ record r {
    seeks = (decrement_seek_allowance level number r.seeks).0;
    charged_seek_file = true;
  }
]

unfoldable pub visit_file : ℕ → ℕ → Reading → Reading
visit_file level number r = record (if r.charged_seek_file then r else charge r) {
  last_file_read = some (level, number);
}

-- What is done with what the file holds; `next` is the rest of the search.
unfoldable pub answer : Result LookupResult → Reading → (Reading → Answer) → Answer
answer panicked r next = (r.seeks, panicked)
answer (err e) r next = (r.seeks, err e)
answer (ok (found v)) r next = (r.seeks, ok (some v))
answer (ok deleted) r next = (r.seeks, ok none)
answer (ok not_found) r next = next r

module _ (user : Comparator) (lookup : ℕ → Bytes → Result LookupResult) where
  -- The files of level 0 whose range covers the key.
  unfoldable pub covering : Bytes → List FileMetaData → Option (List FileMetaData)
  covering key [] = some []
  covering key (f ∷ files) = covers user key f >>= λ hit.
      covering key files >>= λ rest. some (if hit then f ∷ rest else rest)

  unfoldable pub get_first : List FileMetaData → Bytes → Reading → (Reading → Answer) → Answer
  get_first [] internal_key r next = next r
  get_first (f ∷ files) internal_key r next =
      answer (lookup f.number internal_key) (visit_file 0 f.number r)
        (λ r'. get_first files internal_key r' next)

  -- The file of a deeper level that may hold the key, if there is one; `none` is a panic.
  unfoldable pub ask_candidate :
      ℕ → Bytes → Option (Option FileMetaData) → Reading → (Reading → Answer) → Answer
  ask_candidate level internal_key none r next = (r.seeks, panicked)
  ask_candidate level internal_key (some none) r next = next r
  ask_candidate level internal_key (some (some f)) r next =
      answer (lookup f.number internal_key) (visit_file level f.number r) next

  unfoldable pub get_deeper : ℕ → ℕ → Bytes → Bytes → List (List FileMetaData) → Reading → Answer
  get_deeper zero level key internal_key files r = (r.seeks, ok none)
  get_deeper (suc left) level key internal_key files r =
      let chosen =
        (get_elem? files level >>= λ level_files. candidate user key internal_key level_files) in
      ask_candidate level internal_key chosen r
        (λ r'. get_deeper left (level + 1) key internal_key files r')

  -- The files of level 0 in their order, unless the tests or the sort panic.
  unfoldable pub ask_first :
      Bytes → Option (List FileMetaData) → Reading → (Reading → Answer) → Answer
  ask_first internal_key none r next = (r.seeks, panicked)
  ask_first internal_key (some l0) r next = get_first l0 internal_key r next

  unfoldable pub get : List (List FileMetaData) → Bytes → Bytes → Seeks → Answer
  get files key internal_key s =
      let start : Reading = record {
        seeks = s;
        last_file_read = none;
        charged_seek_file = false;
      } in
      let newest_first =
        (get_elem? files 0 >>= λ level0. covering key level0 >>= λ l0. sort_by by_newest l0) in
      ask_first internal_key newest_first start
        (λ r. get_deeper (num_levels - 1) 1 key internal_key files r)
