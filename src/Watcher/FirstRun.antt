-- ===== src/Watcher/FirstRun.antt =====
-- The program on an account without a configuration.
use conwatch.Prelude.{◌≡◌, ap, ◌∙◌, Bool, true, false, Option, some, List, Text, ℤ}
use conwatch.Rtnetlink.{Rtnetlink}
use conwatch.Config.{Config}
use conwatch.Config.Load.{Yaml, loaded, load}
use conwatch.Config.Default.{default_config_yaml}
use conwatch.Config.File.{FileSystem, resolve_path, ensure_exists}
use conwatch.Config.Atomic.{IsLawful, HasRoom, ensure_exists-atomic, ensure_exists-idempotent}
use conwatch.Config.FirstRun.{IsDefaultFile, shipped_config, load-IsDefaultFile}
use conwatch.Netlink.Socket.{Kernel}
use conwatch.Watcher.Loop.{Wakeup}
use conwatch.Watcher.Run.{SignalCalls, new_daemon, run, destroyed, ran, watch, load_ensured, main}

module _ (k : Kernel) (calls : SignalCalls k) (nl : Rtnetlink) (fnmatch : Text → Text → Bool)
    (fs : FileSystem) (yaml : fs.World → Yaml) where
  main_loaded :
      (getenv : Text → Option Text) (files : fs.World) (wakeups : List (Wakeup nl)) (waits : List ℤ)
      (w : k.World) (made : Bool) (cfg : Config)
      → let path = resolve_path fs getenv in
        let e = ensure_exists fs path files in
        e.answer ≡ some made
        → load (yaml e.world) path ≡ loaded cfg
        → main k calls nl fnmatch fs yaml getenv files wakeups waits w
          ≡ ran (
              destroyed k calls nl fnmatch
                (run k calls nl fnmatch wakeups waits (new_daemon cfg path) w))
  unfolding main
  main_loaded getenv files wakeups waits w made cfg answer loads =
      let path = resolve_path fs getenv in
      let e = ensure_exists fs path files in
      ap (λ o. load_ensured k calls nl fnmatch fs yaml o e.world path wakeups waits w) answer
      ∙ ap (λ l. watch k calls nl fnmatch fs yaml l path wakeups waits w) loads

  -- On a device with room, where the YAML library reads the default text as the default document:
  -- the run that creates the configuration file runs the watcher with the shipped configuration,
  -- and so does the next run on the files that it leaves.
  pub main-shipped_config :
      (content : fs.FilePath → fs.World → Option Text)
      → IsLawful fs content
      → HasRoom fs content
      → (getenv : Text → Option Text) (files : fs.World) (wakeups : List (Wakeup nl))
        (waits : List ℤ) (w : k.World)
      → let path = resolve_path fs getenv in
        let files' = (ensure_exists fs path files).world in
        let watched = ran (
          destroyed k calls nl fnmatch
            (run k calls nl fnmatch wakeups waits (new_daemon shipped_config path) w)) in
        ((u : fs.World)
          → content (fs.path path) u ≡ some default_config_yaml
          → IsDefaultFile (yaml u) path)
        → (ensure_exists fs path files).answer ≡ some true
        → (main k calls nl fnmatch fs yaml getenv files wakeups waits w ≡ watched)
          × (main k calls nl fnmatch fs yaml getenv files' wakeups waits w ≡ watched)
  main-shipped_config content lawful room getenv files wakeups waits w reads made =
      let path = resolve_path fs getenv in
      let e = ensure_exists fs path files in
      let written = (ensure_exists-atomic fs content lawful room path files).1 made in
      let loads : load (yaml e.world) path ≡ loaded shipped_config =
        load-IsDefaultFile (yaml e.world) path (reads e.world written) in
      let again = ensure_exists-idempotent fs content lawful path files true made in
      (
        main_loaded getenv files wakeups waits w true shipped_config made loads,
        main_loaded getenv e.world wakeups waits w false shipped_config again.0
            (ap (λ u. load (yaml u) path) again.1 ∙ loads),
      )
