-- ===== src/Watcher/Run.antt =====
-- src/watcher/watcher.cpp: Watcher::run and openSignalFd, and src/watcher/main.cpp. The loop itself
-- opens and closes nothing: its children's ends of descriptors are theirs.
use conwatch.Prelude.{
  is_negative, ℕ, Bool, true, false, Option, none, some, List, [], ◌∷◌, Text, ℤ, negsuc,
  if◌then◌else◌,
}
use conwatch.Processes.{Exec}
use conwatch.Rtnetlink.{Rtnetlink}
use conwatch.Config.{Config}
use conwatch.Config.Load.{Yaml, Loaded, loaded, exited, load_config}
use conwatch.Config.Load
use conwatch.Config.File.{FileSystem, resolve_config_path, ensure_config_exists}
use conwatch.Netlink.Socket.{Kernel, NetlinkWatcher, new_netlink, open_netlink, destroy}
use conwatch.Watcher.{Watcher, watching}
use conwatch.Watcher.Loop.{Wakeup, Ended, returned, replaced, thrown, run_loop}

-- The calls of openSignalFd, each with the signals of its mask.
pub record SignalCalls (k : Kernel) : Type 0 where
  pub sigprocmask_block : List ℕ → k.World → ℤ × k.World
  pub signalfd : List ℕ → k.World → ℤ × k.World
  pub sigchld : ℕ
  pub sigterm : ℕ
  pub sigint : ℕ

-- The members of the watcher; `watcher` has those that the loop changes.
pub record Daemon : Type 0 where
  pub watcher : Watcher
  pub config_path : Text
  pub netlink : NetlinkWatcher
  pub sig_fd : ℤ

-- The constructor.
abbrev pub new_daemon : Config → Text → Daemon
new_daemon cfg config_path = record {
  watcher = watching cfg;
  config_path = config_path;
  netlink = new_netlink;
  sig_fd = negsuc 0;
}

module _ (k : Kernel) (calls : SignalCalls k) where
  -- How `run` ends: with a status, as another program in a fork, or by an exception.
  pub data RunEnd : Type 0 where
    status : ℕ → Daemon → k.World → RunEnd
    became : Exec → RunEnd
    threw : RunEnd

  pub record SignalFd : Type 0 where
    pub ok : Bool
    pub daemon : Daemon
    pub world : k.World

  unfoldable pub open_signal_fd : Daemon → k.World → SignalFd
  open_signal_fd d w =
      let mask = calls.sigchld ∷ calls.sigterm ∷ calls.sigint ∷ [] in
      let (blocked, w1) = calls.sigprocmask_block mask w in
      let (fd, w2) = calls.signalfd mask w1 in
      if is_negative blocked
      then record { ok = false; daemon = d; world = w1 }
      else (if is_negative fd
          then record { ok = false; daemon = record d { sig_fd = fd }; world = w2 }
          else record { ok = true; daemon = record d { sig_fd = fd }; world = w2 })

  abbrev pub finish : Ended → Daemon → k.World → RunEnd
  finish (returned watcher) d w = status 0 (record d { watcher = watcher }) (k.close d.sig_fd w)
  finish (replaced x) d w = became x
  finish thrown d w = threw

  module _ (nl : Rtnetlink) (fnmatch : Text → Text → Bool) where
    -- The wakeups of the loop, and the answers of waitpid to the end of the children.
    unfoldable pub run : List (Wakeup nl) → List ℤ → Daemon → k.World → RunEnd
    unfolding open_signal_fd
    run wakeups waits d w =
        let o = open_netlink k w in
        let d1 = record d { netlink = o.netlink } in
        let s = open_signal_fd d1 o.world in
        let ended = run_loop nl fnmatch wakeups waits s.daemon.watcher in
        if o.ok
        then (if s.ok then finish ended s.daemon s.world else status 1 s.daemon s.world)
        else status 1 d1 o.world

    -- The destructor of the watcher, which is that of its NetlinkWatcher.
    abbrev pub destroyed : RunEnd → RunEnd
    destroyed (status n d w) = status n d (destroy k d.netlink w)
    destroyed (became x) = became x
    destroyed threw = threw

    -- How the program ends: as a run does, by `exit` of the loader, or by an exception before.
    pub data MainEnd : Type 0 where
      ran : RunEnd → MainEnd
      left : ℕ → MainEnd
      failed : MainEnd

    module _ (fs : FileSystem) (yaml : fs.World → Yaml) where
      abbrev pub watch : Loaded → Text → List (Wakeup nl) → List ℤ → k.World → MainEnd
      watch (loaded cfg) path wakeups waits w =
          ran (destroyed (run wakeups waits (new_daemon cfg path) w))
      watch (exited n) path wakeups waits w = left n
      watch Load.thrown path wakeups waits w = failed

      abbrev pub load_ensured :
          Option Bool → fs.World → Text → List (Wakeup nl) → List ℤ → k.World → MainEnd
      load_ensured none files path wakeups waits w = failed
      load_ensured (some made) files path wakeups waits w =
          watch (load_config (yaml files) path) path wakeups waits w

      -- `main`; `yaml files` is the YAML library on those files.
      unfoldable pub main :
          (Text → Option Text) → fs.World → List (Wakeup nl) → List ℤ → k.World → MainEnd
      main getenv files wakeups waits w =
          let path = resolve_config_path fs getenv in
          let e = ensure_config_exists fs path files in
          load_ensured e.answer e.world path wakeups waits w
