-- ===== src/Heap/Vacuum.antt =====
-- table.go: what Vacuum deletes of the versions of one row, and which of them a reader is given.
pub mod Visible
use plomvix.Base.{
  ℕ, ◌≤◌, ◌<◌, ◌≡◌, refl, sym, ap, ◌∙◌, inl, inr, Bool, true, false, not, ◌&&◌, ◌||◌, List, [], ◌∷◌,
  arith, Option, none, some, ltb, leb, ◌==◌, if◌then◌else◌, if_true, if_false, Bool-cases,
  Option-cases, All, Result, ok, err, require, ◌>>=◌, ◌>>◌,
}
use plomvix.Key.Composite.{Any}
use plomvix.Heap.{flag_tombstone, Schema, decode_enterprise_value}
use plomvix.Heap.Table.{TableError, key_not_found, of_row, passed, read_latest}

-- versionEntry
pub record VersionEntry : Type 0 where
  pub version : ℕ
  pub data_bytes : List ℕ
  pub key_bytes : List ℕ

-- len(data) > 0 && data[0] == FlagTombstone
abbrev pub is_tombstone : List ℕ → Bool
is_tombstone [] = false
is_tombstone (flags ∷ rest) = flags == flag_tombstone

-- The first version not above `bound`: highestOld of a group that is sorted by descending version, and
-- the version that a transaction of that id sees.
unfoldable pub highest_upto : ℕ → List VersionEntry → Option VersionEntry
highest_upto bound [] = none
highest_upto bound (ve ∷ versions) =
    if leb ve.version bound then some ve else highest_upto bound versions

-- hasNewer
unfoldable pub has_newer : ℕ → List VersionEntry → Bool
has_newer older_than [] = false
has_newer older_than (ve ∷ versions) = ltb older_than ve.version || has_newer older_than versions

-- Whether the last loop deletes a version, by isTomb, hasNewer and the version of highestOld.
abbrev pub deletes : ℕ → Bool → Bool → ℕ → VersionEntry → Bool
deletes older_than is_tomb newer highest ve =
    if ltb older_than ve.version
    then false
    else (if is_tomb && not newer then true else not is_tomb && ltb ve.version highest)

-- The versions that a deletion leaves.
unfoldable pub kept : (VersionEntry → Bool) → List VersionEntry → List VersionEntry
kept del [] = []
kept del (ve ∷ versions) = if del ve then kept del versions else ve ∷ kept del versions

-- What stays of a group's versions, by its highest old version.
unfoldable pub vacuum_below : ℕ → List VersionEntry → Option VersionEntry → List VersionEntry
vacuum_below older_than versions none = versions
vacuum_below older_than versions (some h) =
    kept (deletes older_than (is_tombstone h.data_bytes) (has_newer older_than versions) h.version)
      versions

-- One group of Vacuum, its versions sorted: those that stay.
unfoldable pub vacuum_group : ℕ → List VersionEntry → List VersionEntry
vacuum_group older_than versions =
    vacuum_below older_than versions (highest_upto older_than versions)

-- The newer of two versions, the first of which is there.
abbrev pub newer_of : VersionEntry → Option VersionEntry → VersionEntry
newer_of ve none = ve
newer_of ve (some o) = if ltb ve.version o.version then o else ve

-- The highest version not above `bound`, in whatever order they stand: rowVersions[0] of findVisibleRow
-- once it is sorted.
unfoldable pub latest : ℕ → List VersionEntry → Option VersionEntry
latest bound [] = none
latest bound (ve ∷ versions) =
    let rest = latest bound versions in
    if leb ve.version bound then some (newer_of ve rest) else rest

abbrev pub row_version : Option VersionEntry → List (ℕ × List ℕ)
row_version none = []
row_version (some ve) = (ve.version, ve.data_bytes) ∷ []

-- What findVisibleRow gives of a row with these versions.
abbrev pub visible :
    {F : Type 0} → Schema → ℕ → List VersionEntry → Result (TableError F) (List (Option Any) × ℕ)
visible schema tx_id versions = read_latest schema (row_version (latest tx_id versions))

-- The order in which sort.Slice leaves a group, no two versions of which are the same.
abbrev pub IsDescending : List VersionEntry → Type 0
IsDescending [] = Unit {0}
IsDescending (ve ∷ versions) =
    All (λ (w : VersionEntry). w.version < ve.version) versions × IsDescending versions

-- A version whose bytes decode.
abbrev pub IsRow : Schema → VersionEntry → Type 0
IsRow schema ve =
    (row : Option (List (Option Any))) × (decode_enterprise_value schema ve.data_bytes ≡ ok row)
