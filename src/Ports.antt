-- ===== src/Ports.antt =====
-- PortLens, opsforge/portlens/portlens.py: its data and its one exception, `PortLensError`, with what
-- the message says. Family and protocol are two strings each in the source.
pub mod Selection
pub mod Endpoint
pub mod Query
pub mod Owners
pub mod Display
pub mod Inspect
pub mod Main
mod Tests
use opsforge.Prelude.{ℕ, Option, List, Text}

pub data Family : Type 0 where
  ipv4 ipv6 : Family

pub data Protocol : Type 0 where
  tcp udp : Protocol

pub data PortError : Type 0 where
  bad_endpoint invalid_port malformed_row unexpected_state malformed_queues : PortError
  ss_missing ss_timeout ss_error_output ss_not_executed : PortError
  ss_status : (returncode : ℕ) → PortError
  -- `SsOutputTruncated`, where no caller keeps the complete rows
  rows_not_parsed : (rows : ℕ) → PortError
  output_cut : List Family → PortError

pub record ProcessReference : Type 0 where
  pub pid : ℕ
  pub fd : ℕ

pub record SocketObservation : Type 0 where
  pub protocol : Protocol
  pub state : Text
  pub family : Family
  pub local_address : Text
  pub local_port : ℕ
  pub processes : List ProcessReference
  pub interface : Option Text
  pub inode : Option ℕ
