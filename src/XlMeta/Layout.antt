-- ===== src/XlMeta/Layout.antt =====
-- crates/openlake_io/src/xl_meta.rs: the records of the file, and the bytes of its numbers.
use openlake.Prelude.{
  ℕ, ◌+◌, ◌*◌, ◌/◌, ◌%◌, ◌^◌, ◌<◌, ◌≡◌, String, Bool, Option, List, [], ◌∷◌, ◌++◌, map, arith,
}
use openlake.Prelude.Int.{ℤ}
use openlake.Erasure.Codec.{Bytes}
use openlake.Erasure.Shards.{concat}
use openlake.Records.{ChecksumInfo, ErasureInfo, ObjectPartInfo}

pub record ChecksumBlock : Type 0 where
  pub part_number : ℤ
  pub algorithm : String
  pub hash : Bytes

pub record ErasureBlock : Type 0 where
  pub algorithm : String
  pub data_blocks : ℕ
  pub parity_blocks : ℕ
  pub index : ℕ
  pub block_size : ℕ
  pub distribution : List ℕ
  pub checksums : List ChecksumBlock

pub record PartBlock : Type 0 where
  pub number : ℤ
  pub size : ℤ
  pub actual_size : ℤ
  pub mod_time : ℕ
  pub etag : String
  pub index : Bytes
  pub checksums : List (String × String)

pub record VersionRecord : Type 0 where
  pub version_id : Bytes
  pub ty : ℕ
  pub mod_time : ℕ
  pub data_dir : Bytes
  pub size : ℤ
  pub erasure : ErasureBlock
  pub parts : List PartBlock
  pub metadata : List (String × String)
  pub meta_sys : List (String × Bytes)
  pub inline_offset : ℕ
  pub inline_length : ℕ

pub record OnDiskMeta : Type 0 where
  pub versions : List VersionRecord

pub record EncodedXlMeta : Type 0 where
  pub head : Bytes
  pub tail : List Bytes

pub record DecodedRecord : Type 0 where
  pub version_id : String
  pub data_dir : String
  pub deleted : Bool
  pub size : ℤ
  pub mod_time_ms : ℕ
  pub metadata : List (String × String)
  pub meta_sys : List (String × Bytes)
  pub erasure : ErasureInfo
  pub parts : List ObjectPartInfo
  pub inline_data : Option (List Bytes)
  pub num_versions : ℤ

-- `VersionType::Object as u8` and `VersionType::DeleteMarker as u8`
abbrev pub object_type : ℕ
object_type = 0

abbrev pub delete_marker_type : ℕ
delete_marker_type = 1

abbrev pub magic : Bytes
magic = 88 ∷ 76 ∷ 50 ∷ 32 ∷ []

abbrev pub format_major : ℕ
format_major = 1

abbrev pub format_minor : ℕ
format_minor = 3

abbrev pub bin32_tag : ℕ
bin32_tag = 198

abbrev pub crc_tag : ℕ
crc_tag = 206

-- `to_be_bytes` and `from_be_bytes` of a `u32`
unfoldable pub be_bytes : ℕ → Bytes
be_bytes x = x / 16777216 % 256 ∷ x / 65536 % 256 ∷ x / 256 % 256 ∷ x % 256 ∷ []

unfoldable pub from_be_onto : ℕ → Bytes → ℕ
from_be_onto n [] = n
from_be_onto n (b ∷ bs) = from_be_onto (n * 256 + b) bs

pub from_be-be_bytes : (x : ℕ) → x < 2 ^ 32 → from_be_onto 0 (be_bytes x) ≡ x
unfolding from_be_onto be_bytes
from_be-be_bytes x h = omega arith

-- `EncodedXlMeta::to_vec`
unfoldable pub to_vec : EncodedXlMeta → Bytes
unfolding concat
to_vec e = e.head ++ concat e.tail

abbrev pub encode_checksum : ChecksumInfo → ChecksumBlock
encode_checksum c = record { part_number = c.part_number; algorithm = c.algorithm; hash = c.hash }

abbrev pub decode_checksum : ChecksumBlock → ChecksumInfo
decode_checksum c = record { part_number = c.part_number; algorithm = c.algorithm; hash = c.hash }

unfoldable pub encode_erasure : ErasureInfo → ErasureBlock
encode_erasure ei = record {
  algorithm = ei.algorithm;
  data_blocks = ei.data_blocks;
  parity_blocks = ei.parity_blocks;
  index = ei.index;
  block_size = ei.block_size;
  distribution = ei.distribution;
  checksums = map encode_checksum ei.checksums;
}

unfoldable pub decode_erasure : ErasureBlock → ErasureInfo
decode_erasure b = record {
  algorithm = b.algorithm;
  data_blocks = b.data_blocks;
  parity_blocks = b.parity_blocks;
  index = b.index;
  block_size = b.block_size;
  distribution = b.distribution;
  checksums = map decode_checksum b.checksums;
}

unfoldable pub encode_part : ObjectPartInfo → PartBlock
encode_part p = record {
  number = p.number;
  size = p.size;
  actual_size = p.actual_size;
  mod_time = p.mod_time_ms;
  etag = p.etag;
  index = p.index;
  checksums = p.checksums;
}

unfoldable pub decode_part : PartBlock → ObjectPartInfo
decode_part p = record {
  etag = p.etag;
  number = p.number;
  size = p.size;
  actual_size = p.actual_size;
  mod_time_ms = p.mod_time;
  index = p.index;
  checksums = p.checksums;
}
