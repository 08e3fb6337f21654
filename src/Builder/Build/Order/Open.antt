-- ===== src/Builder/Build/Order/Open.antt =====
-- Opening a device sets nothing of it; then the settings of the builder follow.
use quincy_tun.Host.{Host}
