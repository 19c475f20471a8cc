-- ===== src/Socket/State.antt =====
-- The fields of `ReliableSocket` (src/rudp/ReliableSocket.h) that its threads share for the
-- protocol. Ids are `uint64_t`. A package to send is its address, a number; packages that arrived
-- are values. `MAX` is that of src/Sharp.h.
use sharpvpn.Base.{ℕ, ◌+◌, ◌%◌, ◌^◌, ltb, if◌then◌else◌, Bool}
use sharpvpn.NetStruct.IdSet.{IdSet}
use sharpvpn.NetStruct.IdSet
use sharpvpn.NetStruct.PackageMap.{PackageMap}
use sharpvpn.NetStruct.PackageMap
use sharpvpn.NetStruct.PackageQueueMap.{PackageQueueMap}
use sharpvpn.NetStruct.PackageQueueMap
use sharpvpn.NetStruct.Ring
use sharpvpn.NetStruct.SegmentParser.{SegmentParser}
use sharpvpn.NetStruct.SegmentParser
use sharpvpn.Package.{DataPackage}
use sharpvpn.Package.AckQueue.{AckQueue}
use sharpvpn.Crypto.{SharpCrypto}

pub record Socket : Type 0 where
  pub worker_running : Bool
  pub send_id : ℕ
  pub send_pool : PackageQueueMap ℕ
  pub resend_now : ℕ
  pub recv_ack_id : ℕ
  pub send_ack_id : ℕ
  pub send_from : ℕ
  pub ack_send_queue : AckQueue
  pub ack_recv_pool : IdSet
  pub recv_id : ℕ
  pub recv_pool : PackageMap DataPackage
  pub segment_recv : SegmentParser

-- The contents of the memory that the constructors do not clear.
pub record Memory : Type 0 where
  pub ack_ids : ℕ → ℕ
  pub acked_ids : ℕ → ℕ
  pub segment_buf : ℕ → ℕ

-- The initial values of the fields, for tables of `capacity` entries (100000 in the source).
unfoldable pub init : Memory → SharpCrypto → ℕ → Bool → Socket
init memory crypto capacity running = record {
  worker_running = running;
  send_id = 1;
  send_pool = PackageQueueMap.init capacity;
  resend_now = 0;
  recv_ack_id = 0;
  send_ack_id = 0;
  send_from = 0;
  ack_send_queue = Ring.init memory.ack_ids capacity;
  ack_recv_pool = IdSet.init memory.acked_ids capacity;
  recv_id = 1;
  recv_pool = PackageMap.init capacity;
  segment_recv = SegmentParser.init memory.segment_buf crypto;
}

abbrev pub max64 : ℕ → ℕ → ℕ
max64 a b = if ltb b a then a else b

-- `x + k` on `uint64_t`
abbrev pub add64 : ℕ → ℕ → ℕ
add64 x k = (x + k) % 2 ^ 64
