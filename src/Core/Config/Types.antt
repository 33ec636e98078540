-- ===== src/Core/Config/Types.antt =====
-- The configuration of core/config.py, as its dataclasses hold it.
use rtls_stream_visualizer.Base.{String}
use rtls_stream_visualizer.Python.Value.{Value, Integer}

-- A path as `_resolve_path` leaves it: absolute, or below PROJECT_ROOT. The texts are as given.
pub data Location : Type 0 where
  absolute under_root : String → Location

pub record ValidationConfig : Type 0 where
  pub origin : String
  pub schema_path : Location

-- The types of `LoggingConfig` and of the address of `UdpServerConfig` are not checked.
pub record LoggingConfig (F : Type 0) : Type 0 where
  pub level : Value F
  pub format : Value F

pub record UdpServerConfig (F : Type 0) : Type 0 where
  pub ip : Value F
  pub port : Value F
  pub topic : String

-- `BrokerConfig` and `DatabaseConfig` have one field, and are it.
pub record RabbitMqConfig : Type 0 where
  pub url : String
  pub exchange : String
  pub exchange_type : String
  pub queue : String
  pub routing_key : String

pub record BackendApiConfig : Type 0 where
  pub host : String
  pub port : Integer

pub record AppConfig (F : Type 0) : Type 0 where
  pub validation : ValidationConfig
  pub logging : LoggingConfig F
  pub udp_server : UdpServerConfig F
  pub envelope_version : String
  pub rabbitmq : RabbitMqConfig
  pub backend : BackendApiConfig
  pub dsn : String
