-- ===== src/Config/FileTests.antt =====
-- The configuration file on a file system in memory.
use conwatch.Prelude.{
  ◌≡◌, ◌≢◌, inl, refl, true, false, Option, none, some, [], Text, codes, text_eq, text_eq_iff,
  arith, if◌then◌else◌,
}
use conwatch.Config.Default.{default_config_yaml}
use conwatch.Config.File.{
  FileSystem, temporary, resolve_path, ensure_exists, create_missing, write_default_config,
}
use conwatch.Config.Atomic.{
  Always, OldOrDefault, Unchanged, ensure_exists-atomic, ensure_exists-Unchanged,
  ensure_exists-idempotent,
}
use conwatch.Config.Memory.{Files, memory, content, memory-IsLawful, memory-HasRoom, memory-IsPosix}
use conwatch.Config.Location.{from_home, resolve_path-ConfigDir}

-- The first run of a user with a HOME alone.
abbrev home_only : Text → Option Text
home_only name = if text_eq name (codes "HOME") then some (codes "/home/me") else none

abbrev file : Text
file = codes "/home/me/.config/conwatch/config.yaml"

resolve_path-ConfigDir_example : resolve_path memory home_only ≡ file
unfolding text_eq
resolve_path-ConfigDir_example =
    resolve_path-ConfigDir memory memory-IsPosix home_only (codes "/home/me/.config")
      (from_home (codes "/home/me") refl refl refl)

abbrev no_files : Files
no_files q = none

made : (ensure_exists memory file no_files).answer ≡ some true
unfolding ensure_exists create_missing write_default_config text_eq
made = refl

ensure_exists-atomic_example :
    Always memory
      (OldOrDefault memory content file no_files)
      (ensure_exists memory file no_files).seen
    × ((ensure_exists memory file no_files).answer ≡ some true
        → content file (ensure_exists memory file no_files).world ≡ some default_config_yaml)
ensure_exists-atomic_example =
    ensure_exists-atomic memory content memory-IsLawful memory-HasRoom file no_files

-- Another file of the directory.
abbrev other : Text
other = codes "/home/me/.config/conwatch/notes"

unlike : (s t : Text) → text_eq s t ≡ false → s ≢ t
unlike s t e same = ground (arith, text_eq_iff s t, e, same)

ensure_exists-Unchanged_example :
    Always memory
      (Unchanged memory content other no_files)
      (ensure_exists memory file no_files).seen
unfolding text_eq
ensure_exists-Unchanged_example =
    ensure_exists-Unchanged memory content memory-IsLawful file other no_files
      (unlike other (temporary memory file) refl) (inl (unlike other file refl))

second_call :
    let r = ensure_exists memory file (ensure_exists memory file no_files).world in
    (r.answer ≡ some false) × (r.world ≡ (ensure_exists memory file no_files).world)
second_call = ensure_exists-idempotent memory content memory-IsLawful file no_files true made

-- A full device: the file is made, and a write to it fails.
abbrev full : FileSystem
full = record memory { insert = λ t p w. (p, w) }

-- The run answers that it made the configuration, which is empty.
empty_on_full :
    let r = ensure_exists full file no_files in
    (r.answer ≡ some true) × (content file r.world ≡ some [])
unfolding ensure_exists create_missing write_default_config text_eq
empty_on_full = (refl, refl)
