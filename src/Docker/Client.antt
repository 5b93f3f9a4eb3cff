-- ===== src/Docker/Client.antt =====
-- The Docker engine as internal/docker/client.go sees it. The engine is not part of this
-- repository, so it is a parameter: a world, the calls that the code makes, and what the engine's
-- documentation says of them. A call may fail, and a call that is reported as failed (a timeout)
-- may have taken effect all the same.
use workspace_cli.Prelude.{Bool, Bytes, List, Option, String, ℕ}

-- The two names of the recreate transaction: `cfg.ProxyContainer` and `backupName(cfg)`.
pub data Name : Type 0 where
  primary backup : Name

pub data Reply : Type 0 where
  done not_found failed : Reply

-- The containers that the engine holds under the two names, by their ids.
pub data Names : Type 0 where
  held : Option ℕ → Option ℕ → Names

pub data Status : Type 0 where
  -- "exited" and "dead" are the terminal ones; all others are `live`
  exited dead live : Status

pub data HealthStatus : Type 0 where
  starting healthy unhealthy : HealthStatus

-- `info.State`; `health` is none for an image with no HEALTHCHECK.
pub record ContainerState : Type 0 where
  pub status : Status
  pub running : Bool
  pub health : Option HealthStatus

-- The reply of ContainerInspect; the flag of `broken` is `errors.Is(ctx.Err(), DeadlineExceeded)`.
pub data Inspect : Type 0 where
  absent : Inspect
  broken : Bool → Inspect
  stateless : Inspect
  seen : ContainerState → Inspect

-- An endpoint of NetworkInspect: the container's name and its IPv4Address.
pub record Endpoint : Type 0 where
  pub name : String
  pub ip : Bytes

pub data Stat : Type 0 where
  exists missing unreadable : Stat

pub record Engine : Type 1 where
  pub World : Type 0
  pub names : World → Names
  -- of a container, by its id: whether it is connected to the proxy network, and whether it was told to
  -- start, and not to stop since
  pub attached : World → ℕ → Bool
  pub started : World → ℕ → Bool
  -- the clock, in polling intervals
  pub now : World → ℕ
  pub inspect : Name → World → Inspect × World
  pub stop : Name → World → Reply × World
  pub start : Name → World → Reply × World
  pub remove : Name → World → Reply × World
  pub rename : Name → Name → World → Reply × World
  pub connect : Name → World → Reply × World
  pub disconnect : Name → World → Reply × World
  -- newClientFunc
  pub new_client : World → Bool × World
  -- Ping, true for nil
  pub ping : World → Bool × World
  -- ContainerCreate under the primary name
  pub create : World → Reply × World
  pub image_inspect : World → Reply × World
  pub network_inspect : World → Option (List Endpoint) × World
  pub network_create : World → Reply × World
  -- os.Stat of the xray config
  pub stat_config : World → Stat × World
  -- the exec that replaces one container's default route
  pub route_exec : String → World → Reply × World
  -- the ticker's channel, or false when the context is done first
  pub wait : World → Bool × World
