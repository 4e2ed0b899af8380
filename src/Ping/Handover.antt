-- ===== src/Ping/Handover.antt =====
-- From the watcher's fork to the tray's monitor.
