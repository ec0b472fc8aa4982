-- ===== src/Records.antt =====
-- crates/openlake_io/src/types.rs: what crosses the `StorageBackend` boundary. A `BTreeMap` is the
-- list of its entries in key order.
pub mod Envelope
mod Examples
use openlake.Prelude.{ℕ, String, Bool, false, Option, none, List, []}
use openlake.Prelude.Int.{ℤ, pos}
use openlake.Erasure.Codec.{Bytes}

pub record ChecksumInfo : Type 0 where
  pub part_number : ℤ
  pub algorithm : String
  pub hash : Bytes

pub record ErasureInfo : Type 0 where
  pub algorithm : String
  pub data_blocks : ℕ
  pub parity_blocks : ℕ
  pub block_size : ℕ
  pub index : ℕ
  pub distribution : List ℕ
  pub checksums : List ChecksumInfo

pub record ObjectPartInfo : Type 0 where
  pub etag : String
  pub number : ℤ
  pub size : ℤ
  pub actual_size : ℤ
  pub mod_time_ms : ℕ
  pub index : Bytes
  pub checksums : List (String × String)

pub record FileInfo : Type 0 where
  pub volume : String
  pub name : String
  pub version_id : String
  pub is_latest : Bool
  pub deleted : Bool
  pub data_dir : String
  pub xl_v1 : Bool
  pub mod_time_ms : ℕ
  pub size : ℤ
  pub mode : ℕ
  pub written_by_version : ℕ
  pub metadata : List (String × String)
  pub meta_sys : List (String × Bytes)
  pub parts : List ObjectPartInfo
  pub erasure : ErasureInfo
  pub inline_data : Option (List Bytes)
  pub num_versions : ℤ
  pub fresh : Bool
  pub idx : ℤ
  pub checksum : Bytes
  pub versioned : Bool

-- `ErasureInfo::default()` and `FileInfo::default()`
abbrev pub default_erasure : ErasureInfo
default_erasure = record {
  algorithm = "";
  data_blocks = 0;
  parity_blocks = 0;
  block_size = 0;
  index = 0;
  distribution = [];
  checksums = [];
}

abbrev pub default_file_info : FileInfo
default_file_info = record {
  volume = "";
  name = "";
  version_id = "";
  is_latest = false;
  deleted = false;
  data_dir = "";
  xl_v1 = false;
  mod_time_ms = 0;
  size = pos 0;
  mode = 0;
  written_by_version = 0;
  metadata = [];
  meta_sys = [];
  parts = [];
  erasure = default_erasure;
  inline_data = none;
  num_versions = pos 0;
  fresh = false;
  idx = pos 0;
  checksum = [];
  versioned = false;
}

pub data VersioningStatus : Type 0 where
  unversioned enabled suspended : VersioningStatus

abbrev pub null_version_id : String
null_version_id = "null"

pub record BucketMeta : Type 0 where
  pub created_ms : ℕ
  pub versioning_status : VersioningStatus
  pub versioning_updated_ms : ℕ
  pub object_lock_enabled : Bool
