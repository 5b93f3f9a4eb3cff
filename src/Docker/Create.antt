-- ===== src/Docker/Create.antt =====
-- `proxyCreatePreflight` and `proxyCreateAndStart` of internal/docker/docker.go. The container's
-- configuration is the engine's: `create` stands for the one request that the code makes.
pub mod Address
use workspace_cli.Docker.Client.{
  Endpoint, Engine, Reply, Stat, done, exists, failed, missing, not_found, primary, unreadable,
}
use workspace_cli.Docker.Health.{HealthError}
use workspace_cli.Docker.Routes.{Settings}
use workspace_cli.Prelude.{
  List, Option, String, [], if◌then◌else◌, none, some, str_eq, ◌||◌, ◌∷◌, Bytes, text_eq, ◌==◌,
}

-- The errors of the transaction.
pub data Fault : Type 0 where
  no_client inspect_primary inspect_backup remove_stale : Fault
  restore_network restore_start restore_rename : Fault
  no_image no_config create_network : Fault
  ip_held : String → Fault
  stop_old rename_old free_ip create_new start_new : Fault
  remove_new reconnect start_backup rename_backup : Fault
  unhealthy_new : HealthError → Fault

-- An address as an endpoint has it, up to the '/' of its prefix length.
unfoldable pub address_of : Bytes → Bytes
address_of [] = []
address_of (c ∷ ip) = let rest = address_of ip in if c == 47 then [] else c ∷ rest

module _ (cfg : Settings) where
  open cfg use {proxy_container, backup_name, proxy_ip}

  -- The first endpoint, not the proxy's and not its backup's, that holds the proxy's address.
  unfoldable pub foreign_holder : List Endpoint → Option String
  unfolding address_of
  foreign_holder [] = none
  foreign_holder (ep ∷ eps) =
      let rest = foreign_holder eps in
      if str_eq ep.name proxy_container || str_eq ep.name backup_name
      then rest
      else if text_eq (address_of ep.ip) proxy_ip
      then some ep.name
      else rest

  unfoldable pub held_by : Option String → Option Fault
  held_by none = none
  held_by (some name) = some (ip_held name)

  -- An unreadable network is let pass.
  unfoldable pub check_address : Option (List Endpoint) → Option Fault
  unfolding held_by
  check_address none = none
  check_address (some eps) = held_by (foreign_holder eps)

module _ (e : Engine) (cfg : Settings) where
  open e use {World}

  unfoldable pub after_create_network : Reply → World → Option Fault × World
  after_create_network done w = let (eps, w') = e.network_inspect w in (check_address cfg eps, w')
  after_create_network not_found w = (some create_network, w)
  after_create_network failed w = (some create_network, w)

  -- `ensureProxyNetwork`, and what follows it.
  unfoldable pub ensure_proxy_network : Option (List Endpoint) → World → Option Fault × World
  ensure_proxy_network (some eps) w = after_create_network done w
  ensure_proxy_network none w =
      let (reply, w') = e.network_create w in after_create_network reply w'

  -- Only a missing file is refused.
  unfoldable pub after_stat : Stat → World → Option Fault × World
  after_stat missing w = (some no_config, w)
  after_stat exists w = let (eps, w') = e.network_inspect w in ensure_proxy_network eps w'
  after_stat unreadable w = let (eps, w') = e.network_inspect w in ensure_proxy_network eps w'

  unfoldable pub after_image : Reply → World → Option Fault × World
  after_image done w = let (stat, w') = e.stat_config w in after_stat stat w'
  after_image not_found w = (some no_image, w)
  after_image failed w = (some no_image, w)

  unfoldable pub proxy_create_preflight : World → Option Fault × World
  proxy_create_preflight w = let (reply, w') = e.image_inspect w in after_image reply w'

  unfoldable pub after_start : Reply → World → Option Fault × World
  after_start done w = (none, w)
  after_start not_found w = (some start_new, w)
  after_start failed w = (some start_new, w)

  unfoldable pub after_create : Reply → World → Option Fault × World
  after_create done w = let (reply, w') = e.start primary w in after_start reply w'
  after_create not_found w = (some create_new, w)
  after_create failed w = (some create_new, w)

  unfoldable pub proxy_create_and_start : World → Option Fault × World
  proxy_create_and_start w = let (reply, w') = e.create w in after_create reply w'
