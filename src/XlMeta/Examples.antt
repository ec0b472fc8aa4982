-- ===== src/XlMeta/Examples.antt =====
-- Two versions with inline bytes in one file, the older written first. The body's codec knows this
-- file only; the hash adds the bytes.
use openlake.Prelude.{ℕ, ◌+◌, ◌≤◌, ◌≡◌, refl, String, some, List, [], ◌∷◌, map, All, arith}
use openlake.Prelude.Int.{pos}
use openlake.Erasure.Codec.{Bytes}
use openlake.Errors.{Result, ok, err, IoError, ◌>>=◌}
use openlake.Records.{FileInfo, default_file_info, ObjectPartInfo, ErasureInfo}
use openlake.XlMeta.Layout.{VersionRecord, OnDiskMeta, DecodedRecord, to_vec}
use openlake.XlMeta.Encode.{records_of, stage, encode_versions, head_of, validate_all, tail_frames}
use openlake.XlMeta.Decode.{sort_newest, decode_all, decode}
use openlake.XlMeta.RoundTrip.Whole.{read_back}
use openlake.XlMeta.RoundTrip.Framing.{decode_all-encode_versions}
use openlake.XlMeta.Newest.{NewestFirst, decode-newest}

abbrev one_drive : ErasureInfo
one_drive = record {
  algorithm = "rs-vandermonde";
  data_blocks = 1;
  parity_blocks = 0;
  block_size = 1048576;
  index = 1;
  distribution = 1 ∷ [];
  checksums = [];
}

abbrev part : ℕ → ObjectPartInfo
part n = record {
  etag = "";
  number = pos 1;
  size = pos n;
  actual_size = pos n;
  mod_time_ms = 5;
  index = [];
  checksums = [];
}

abbrev version : String → ℕ → List Bytes → ℕ → FileInfo
version id time frames n = record default_file_info {
  version_id = id;
  mod_time_ms = time;
  size = pos n;
  erasure = one_drive;
  parts = part n ∷ [];
  inline_data = some frames;
}

abbrev versions : List FileInfo
versions =
    version "" 10 ((7 ∷ []) ∷ (8 ∷ 9 ∷ []) ∷ []) 3
    ∷ version "00000000-0000-0000-0000-0000000000ff" 20 ((4 ∷ 5 ∷ []) ∷ []) 2
    ∷ []

abbrev records_in : Result IoError (List VersionRecord) → List VersionRecord
records_in (ok vs) = vs
records_in (err e) = []

abbrev file : OnDiskMeta
file = record { versions = records_in (records_of versions (stage 0 versions)) }

abbrev body : Bytes
body = 1 ∷ 2 ∷ 3 ∷ []

abbrev sum : Bytes → ℕ
sum [] = 0
sum (b ∷ bs) = b + sum bs

decode_all-encode_versions_example :
    (encode_versions sum (λ m. some body) versions >>= λ e.
    decode_all (λ b. some file) sum (to_vec e))
    ≡ ok (map (read_back 2) (sort_newest (λ fi. fi.mod_time_ms) versions))
unfolding records_of stage validate_all tail_frames
decode_all-encode_versions_example =
    decode_all-encode_versions (λ m. some body) (λ b. some file) sum versions
      (records_in (records_of versions (stage 0 versions))) body refl refl refl refl refl
      (omega arith) (omega arith)

abbrev written : Bytes
unfolding head_of
written = to_vec (record { head = head_of sum body; tail = tail_frames versions })

abbrev read : List DecodedRecord
read = map (read_back 2) (sort_newest (λ fi. fi.mod_time_ms) versions)

decode-newest_example :
    NewestFirst (λ r. r.mod_time_ms) read
    × All (λ r. r.num_versions ≡ pos 2) read
    × (r : DecodedRecord) × (rest : List DecodedRecord) × (read ≡ r ∷ rest)
    × (decode (λ b. some file) sum written ≡ ok r)
    × All (λ s. s.mod_time_ms ≤ r.mod_time_ms) read
unfolding decode_all records_of stage tail_frames to_vec head_of sort_newest read_back
decode-newest_example = decode-newest (λ b. some file) sum written read refl

abbrev some_id : Bytes
some_id = 10 ∷ 255 ∷ 0 ∷ 1 ∷ 2 ∷ 3 ∷ 4 ∷ 5 ∷ 6 ∷ 7 ∷ 8 ∷ 9 ∷ 10 ∷ 11 ∷ 12 ∷ 13 ∷ []
