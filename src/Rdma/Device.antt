-- ===== src/Rdma/Device.antt =====
-- rdma/include/rdma/device.h, context.h and protection_domain.h with their sources. The objects
-- cannot be changed once made, so that a shared pointer to one is the object, or none for null.
use rdma_ai_platform.Common.{ℕ, Bool, Option, none, some}
use rdma_ai_platform.Rdma.Config.{DeviceConfig, default_rdma_config}
use rdma_ai_platform.Text.{Text, codes, text_eq}

pub record Device : Type 0 where
  pub config : DeviceConfig

unfoldable pub make_device : DeviceConfig → Device
make_device config = record { config = config }

-- `Device()`, with the default configuration.
unfoldable pub default_device : Device
unfolding make_device
default_device = make_device default_rdma_config.device

unfoldable pub name : Device → Text
name d = d.config.name

unfoldable pub port : Device → ℕ
port d = d.config.port

unfoldable pub is_loopback : Device → Bool
is_loopback d = text_eq d.config.name (codes "loopback0")

pub record Context : Type 0 where
  pub device : Device

-- The constructor of `Context`.
unfoldable pub make_context : Option Device → Context
make_context none = record { device = default_device }
make_context (some device) = record { device = device }

unfoldable pub make_default_context : DeviceConfig → Context
unfolding make_context make_device
make_default_context config = make_context (some (make_device config))

pub record ProtectionDomain : Type 0 where
  pub context : Context

-- The constructor of `ProtectionDomain`.
unfoldable pub make_protection_domain : Option Context → ProtectionDomain
make_protection_domain none = record { context = make_default_context default_rdma_config.device }
make_protection_domain (some context) = record { context = context }
