-- ===== src/Package.antt =====
-- src/rudp/Package.h: the packages that the two ends exchange.
pub mod AckQueue
pub mod PackageAck
pub mod Formats
use sharpvpn.Base.{ℕ, List, Bool}

-- `enum PackageType`
pub data PackageType : Type 0 where
  connection_create connection_create_r connection_close connection_close_r : PackageType
  ping data_package ack : PackageType

-- A `Data` package: the fields of `PackageDataFormat` and the bytes behind them.
pub record DataPackage : Type 0 where
  pub package_id : ℕ
  pub una : ℕ
  pub bytes : List ℕ

-- An `Ack` package: the fields of `PackageAckFormat` and the `ack_count` ids behind them.
pub record AckPackage : Type 0 where
  pub una : ℕ
  pub send_from : ℕ
  pub ack_list : List ℕ

-- `PackagePingFormat`
pub record PingPackage : Type 0 where
  pub ping_back : Bool
